-- ===== src/Tests/Topics.antt =====
-- Tests of Fsm/Topics.
use mathlib.Core.Option
use aero_mq.Prelude.{
  ℕ, ◌≡◌, refl, true, none, some, [], ◌∷◌, codes, contains, nat_key, text_key, arith,
}
use aero_mq.Fsm.State.{PartitionState}
use aero_mq.Fsm.State.Lookup.{find_partition}
use aero_mq.Fsm.Failover.{is_active, get_active_broker_ids}
use aero_mq.Prelude.Range.{arrange}
use aero_mq.Fsm.Replication.{update_isr_and_hw, refresh_partition}
use aero_mq.Fsm.Topics.{CreateTopicPayload, new_partition, create_topic}
use aero_mq.Fsm.Topics.Placement.{IsPlaced}
use aero_mq.Fsm.Topics.Creation.{create_topic-IsPlaced, find_partition-create_topic}
use aero_mq.Tests.Samples.{seconds, cluster, at}

abbrev payments : CreateTopicPayload
payments = record { name = codes "payments"; partitions = 3; replication_factor = 2 }

create_topic-IsPlaced_example :
    let ids = get_active_broker_ids [] cluster in
    (ps : PartitionState) × (find_partition
        (codes "payments")
        2
        (create_topic (at (seconds 6)) payments cluster).topics
      ≡ some ps)
    × IsPlaced ids 2 ps.leader_id ps.replica_ids
    × (is_active cluster.brokers ps.leader_id ≡ true)
    × ((q : ℕ) → contains q ps.replica_ids ≡ true → is_active cluster.brokers q ≡ true)
unfolding get_active_broker_ids arrange
create_topic-IsPlaced_example =
    create_topic-IsPlaced (at (seconds 6)) payments cluster 2 (refl, (refl, tt)) refl (omega arith)
      (omega arith) (omega arith)

find_partition-create_topic_example :
    find_partition (codes "payments") 3 (create_topic (at (seconds 6)) payments cluster).topics
    ≡ none
find_partition-create_topic_example =
    find_partition-create_topic (at (seconds 6)) payments cluster (codes "payments") 3 refl

replicas_of_partition_1 :
    Option.map
      (λ p. p.replica_ids)
      (find_partition (codes "payments") 1 (create_topic (at (seconds 6)) payments cluster).topics)
    ≡ some (2 ∷ 1 ∷ [])
unfolding create_topic update_isr_and_hw refresh_partition new_partition get_active_broker_ids
    arrange
replicas_of_partition_1 = refl
