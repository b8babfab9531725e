-- ===== src/Fsm/Kept.antt =====
-- What the operations on brokers and topics leave alone: the groups and the committed offsets.
use aero_mq.Prelude.Int.{ℤ}
use aero_mq.Prelude.{
  ◌≡◌, refl, ◌∙◌, Option-cases, inl, inr, some, List, [], ◌∷◌, Text, text_key, arith,
}
use aero_mq.Prelude.Map.{lookup}
use aero_mq.Fsm.State.{ClusterState, Env}
use aero_mq.Fsm.Topics.{
  create_topic, assign_partitions, assign_all, CreateTopicPayload, AssignPartitionsPayload,
}
use aero_mq.Fsm.Replication.{update_isr_and_hw}
use aero_mq.Fsm.Failover.{
  clean_inactive, sweep, sweep_broker, handle_broker_failure, reelect_all, get_active_broker_ids,
  deactivate,
}
use aero_mq.Fsm.State.{ConsumerGroupState}
use aero_mq.Prelude.{nat_key, ℕ}
use aero_mq.Prelude.Map.{Map, adjust, keys}
use aero_mq.Prelude.Range.{Order, arrange}

-- What only joins and commits change.
abbrev pub kept : ClusterState → Map Text ConsumerGroupState × Map Text ℤ
kept s = (s.consumer_groups, s.offsets)

reelect_all-kept :
    (failed : ℕ) (ids : List ℕ) (s : ClusterState) → kept (reelect_all failed ids s) ≡ kept s
unfolding reelect_all
reelect_all-kept failed [] s = refl
reelect_all-kept failed (id ∷ ids) s = refl

handle_broker_failure-kept :
    (o : Order) (failed : ℕ) (s : ClusterState) → kept (handle_broker_failure o failed s) ≡ kept s
unfolding handle_broker_failure
handle_broker_failure-kept o failed s = reelect_all-kept failed (get_active_broker_ids o s) s

sweep_broker-kept : (env : Env) (k : ℕ) (s : ClusterState) → kept (sweep_broker env k s) ≡ kept s
unfolding sweep_broker
sweep_broker-kept env k s = elim (Option-cases (lookup k s.brokers)) [
  | inl e ↦ ground (arith, e)
  | inr (b, e) ↦ ground (
    arith,
    e,
    handle_broker_failure-kept (env.failover_orders b.id) b.id
        (record s { brokers = adjust k deactivate s.brokers }),
  )
]

sweep-kept : (env : Env) (ks : List ℕ) (s : ClusterState) → kept (sweep env ks s) ≡ kept s
unfolding sweep
sweep-kept env [] s = refl
sweep-kept env (k ∷ ks) s = sweep-kept env ks (sweep_broker env k s) ∙ sweep_broker-kept env k s

pub clean_inactive-kept : (env : Env) (s : ClusterState) → kept (clean_inactive env s) ≡ kept s
unfolding clean_inactive update_isr_and_hw
clean_inactive-kept env s = sweep-kept env (keys (arrange env.sweep_order s.brokers)) s

pub create_topic-kept :
    (env : Env) (p : CreateTopicPayload) (s : ClusterState) → kept (create_topic env p s) ≡ kept s
unfolding create_topic update_isr_and_hw
create_topic-kept env p s = elim (Option-cases (lookup p.name s.topics)) [
  | inl e ↦ ground (arith, e)
  | inr (t, e) ↦ ground (arith, e)
]

pub assign_partitions-kept :
    (env : Env) (p : AssignPartitionsPayload) (s s' : ClusterState)
    → assign_partitions env p s ≡ some s'
    → kept s' ≡ kept s
unfolding assign_partitions update_isr_and_hw
assign_partitions-kept env p s s' h = elim (Option-cases (lookup p.topic s.topics)) [
  | inl e ↦ ground (arith, e, h)
  | inr (t, e) ↦
      elim (Option-cases (assign_all (arrange env.payload_order p.partitions) t.partitions)) [
        | inl n ↦ absurd (ground (arith, e, n, h))
        | inr (m, n) ↦ ground (arith, e, n, h)
      ]
]
