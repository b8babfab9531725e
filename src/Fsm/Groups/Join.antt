-- ===== src/Fsm/Groups/Join.antt =====
-- What `join_consumer_group` does to the groups.
use aero_mq.Prelude.{
  ◌+◌, ◌%◌, ◌≡◌, ◌≢◌, refl, some, Text, text_key, text_beq_iff, arith, ◌==◌, if◌then◌else◌,
  beq_refl,
}
use aero_mq.Prelude.Map.{lookup, insert, lookup-insert}
use aero_mq.Fsm.State.{ConsumerGroupState, ClusterState, Env, uint32_mod}
use aero_mq.Fsm.Groups.{
  JoinGroupPayload, group_before, joined_member, rebalance_group, join_consumer_group,
}

module _ (env : Env) (payload : JoinGroupPayload) (s : ClusterState) where
  -- The group after a join, before it is rebalanced.
  abbrev pub group_joined : ConsumerGroupState
  group_joined =
      let g = group_before payload s in
      record g { members = insert payload.member_id (joined_member env payload) g.members }

  -- After a join the group is there under its id, as the rebalancing of the group with the member
  -- entered. Its generation has gone up by one, modulo 2^32. Its members are those of before, with
  -- the joining member entered or replaced. All other groups, and the brokers, topics and offsets,
  -- stay as they were.
  pub join_consumer_group_lem :
      (g' : ConsumerGroupState) × (lookup payload.group_id
          (join_consumer_group env payload s).consumer_groups
        ≡ some g')
      × (g' ≡ rebalance_group env s.topics group_joined)
      × (g'.generation ≡ ((group_before payload s).generation + 1) % uint32_mod)
      × ((m : Text)
          → lookup m g'.members ≡ (
              if m == payload.member_id
              then some (joined_member env payload)
              else lookup m (group_before payload s).members))
      × ((other : Text)
          → other ≢ payload.group_id
          → lookup other (join_consumer_group env payload s).consumer_groups
            ≡ lookup other s.consumer_groups)
      × ((join_consumer_group env payload s).brokers ≡ s.brokers)
      × ((join_consumer_group env payload s).topics ≡ s.topics)
      × ((join_consumer_group env payload s).offsets ≡ s.offsets)
  unfolding join_consumer_group rebalance_group
  join_consumer_group_lem = (
    rebalance_group env s.topics group_joined,
    ground (
      arith,
      lookup-insert payload.group_id payload.group_id (rebalance_group env s.topics group_joined)
          s.consumer_groups,
      beq_refl payload.group_id,
    ),
    refl,
    refl,
    λ m.
        lookup-insert payload.member_id m (joined_member env payload)
          (group_before payload s).members,
    λ other n. ground (
      arith,
      text_beq_iff other payload.group_id,
      lookup-insert payload.group_id other (rebalance_group env s.topics group_joined)
          s.consumer_groups,
    ),
    refl,
    refl,
    refl,
  )
