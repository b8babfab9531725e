-- ===== src/Tests/Groups.antt =====
-- Tests of Fsm/Groups.
use aero_mq.Prelude.{
  ◌≡◌, ◌≢◌, refl, true, some, [], ◌∷◌, Text, codes, contains, nat_key, text_key, arith,
}
use aero_mq.Prelude.Map.{lookup, keys}
use aero_mq.Fsm.State.{TopicState}
use aero_mq.Prelude.Range.{arrange}
use aero_mq.Fsm.Groups.{assign_round, rebalance_group, JoinGroupPayload}
use aero_mq.Fsm.Groups.Subscribers.{subscribed}
use aero_mq.Fsm.Groups.Assignment.{assigned, rebalance_exactly_one, rebalance_only_subscribed}
use aero_mq.Fsm.Groups.Join.{join_consumer_group_lem}
use aero_mq.Tests.Samples.{cluster, orders, orders_topic, readers, at}

rebalance_exactly_one_example :
    (a : Text) × (subscribed readers.members orders_topic a ≡ true)
    × (assigned (rebalance_group (at 0) cluster.topics readers) a orders_topic 0 ≡ 1)
    × ((c : Text)
        → c ≢ a
        → assigned (rebalance_group (at 0) cluster.topics readers) c orders_topic 0 ≡ 0)
rebalance_exactly_one_example =
    rebalance_exactly_one (at 0) cluster.topics readers orders_topic 0 orders (codes "bob") refl
      (refl, tt) refl refl

alice_has_0 :
    assigned (rebalance_group (at 0) cluster.topics readers) (codes "alice") orders_topic 0 ≡ 1
unfolding rebalance_group arrange assign_round
alice_has_0 = refl

rebalance_only_subscribed_example :
    (subscribed readers.members orders_topic (codes "alice") ≡ true)
    × ((topic : TopicState) × (lookup orders_topic cluster.topics ≡ some topic)
        × (contains 0 (keys topic.partitions) ≡ true))
rebalance_only_subscribed_example =
    rebalance_only_subscribed (at 0) cluster.topics readers orders_topic 0 (codes "alice")
      (λ e. absurd (omega (arith, alice_has_0, e)))

abbrev carol : JoinGroupPayload
carol = record { group_id = codes "readers"; member_id = codes "carol"; topics = orders_topic ∷ [] }

join_consumer_group_lem_example : (join_consumer_group_lem (at 0) carol cluster).0.generation ≡ 4
join_consumer_group_lem_example = (join_consumer_group_lem (at 0) carol cluster).3
