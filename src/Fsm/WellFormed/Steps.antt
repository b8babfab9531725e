-- ===== src/Fsm/WellFormed/Steps.antt =====
-- Every operation keeps the state well formed.
use aero_mq.Prelude.{
  ℕ, refl, List, [], ◌∷◌, Text, nat_key, text_key, Option-cases, Bool-cases, inl, inr,
}
use aero_mq.Prelude.Map.{lookup, keys}
use aero_mq.Prelude.Range.{arrange}
use aero_mq.Prelude.Entries.{IsMap-nil, insert-IsMap, adjust-IsMap}
use aero_mq.Fsm.State.{ClusterState, Env}
use aero_mq.Fsm.Failover.{
  reelect, reelect_all, handle_broker_failure, deactivate, is_expired, sweep_broker, sweep,
  clean_inactive,
}
use aero_mq.Fsm.Groups.{
  JoinGroupPayload, join_consumer_group, rebalance_group, new_group, group_before, joined_member,
}
use aero_mq.Fsm.WellFormed.{IsGroup, IsWellFormed}
use aero_mq.Fsm.WellFormed.Topics.{each_partition-IsMap, update_isr_and_hw-IsWellFormed}

IsGroup-new : (id : Text) → IsGroup id (new_group id)
IsGroup-new id = (refl, IsMap-nil)

group_before-IsGroup :
    (payload : JoinGroupPayload) (s : ClusterState)
    → IsWellFormed s
    → IsGroup payload.group_id (group_before payload s)
group_before-IsGroup payload s w = elim (Option-cases (lookup payload.group_id s.consumer_groups)) [
  | inl e ↦ rw (e, group_before) (IsGroup-new payload.group_id)
  | inr (g, e) ↦ rw (e, group_before) (w.groups.each payload.group_id g e)
]

pub join_consumer_group-IsWellFormed :
    (env : Env) (payload : JoinGroupPayload) (s : ClusterState)
    → IsWellFormed s
    → IsWellFormed (join_consumer_group env payload s)
unfolding join_consumer_group rebalance_group
join_consumer_group-IsWellFormed env payload s w =
    let g : IsGroup payload.group_id (group_before payload s) = group_before-IsGroup payload s w in
    record {
      brokers = w.brokers;
      topics = w.topics;
      groups =
          insert-IsMap payload.group_id _ s.consumer_groups
            (
              g.0,
              insert-IsMap payload.member_id (joined_member env payload)
                  (group_before payload s).members refl g.1,
            )
            w.groups;
      offsets = w.offsets;
    }

reelect_all-IsWellFormed :
    (failed : ℕ) (ids : List ℕ) (s : ClusterState)
    → IsWellFormed s
    → IsWellFormed (reelect_all failed ids s)
unfolding reelect_all
reelect_all-IsWellFormed failed [] s w = w
reelect_all-IsWellFormed failed (k ∷ ks) s w = record {
  brokers = w.brokers;
  topics = each_partition-IsMap (reelect failed s.brokers k) s.topics w.topics;
  groups = w.groups;
  offsets = w.offsets;
}

sweep_broker-IsWellFormed :
    (env : Env) (k : ℕ) (s : ClusterState) → IsWellFormed s → IsWellFormed (sweep_broker env k s)
unfolding sweep_broker handle_broker_failure
sweep_broker-IsWellFormed env k s w = elim (Option-cases (lookup k s.brokers)) [
  | inl e ↦ rw (e, sweep_broker) w
  | inr (b, e) ↦
      rw (e, sweep_broker)
        (elim (Bool-cases (is_expired env.now b)) [
          | inr x ↦ rw x w
          | inl x ↦ rw x (
              reelect_all-IsWellFormed b.id _ _ (record {
                brokers = adjust-IsMap k deactivate s.brokers (λ b p. p) w.brokers;
                topics = w.topics;
                groups = w.groups;
                offsets = w.offsets;
              }))
        ])
]

sweep-IsWellFormed :
    (env : Env) (ks : List ℕ) (s : ClusterState) → IsWellFormed s → IsWellFormed (sweep env ks s)
unfolding sweep
sweep-IsWellFormed env [] s w = w
sweep-IsWellFormed env (k ∷ ks) s w =
    sweep-IsWellFormed env ks (sweep_broker env k s) (sweep_broker-IsWellFormed env k s w)

pub clean_inactive-IsWellFormed :
    (env : Env) (s : ClusterState) → IsWellFormed s → IsWellFormed (clean_inactive env s)
unfolding clean_inactive
clean_inactive-IsWellFormed env s w =
    update_isr_and_hw-IsWellFormed env.later _
      (sweep-IsWellFormed env (keys (arrange env.sweep_order s.brokers)) s w)
