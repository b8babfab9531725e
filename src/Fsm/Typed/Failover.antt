-- ===== src/Fsm/Typed/Failover.antt =====
-- Failover keeps every value in the range of its type.
use aero_mq.Prelude.{
  ℕ, Bool-cases, Option-cases, inl, inr, List, [], ◌∷◌, All, nat_key, text_key, arith, ◌==◌,
}
use aero_mq.Prelude.Map.{Map, lookup, adjust, keys}
use aero_mq.Prelude.Range.{arrange}
use aero_mq.Prelude.Entries.{adjust-IsMap}
use aero_mq.Fsm.State.{BrokerStatus, PartitionState, ClusterState, Env}
use aero_mq.Fsm.Failover.{
  get_active_broker_ids, replica_leader, choose_leader, reelect, reelect_all, handle_broker_failure,
  deactivate, is_expired, sweep_broker, sweep, clean_inactive,
}
use aero_mq.Fsm.Typed.{IsUint32, IsTypedPartition, IsTyped}
use aero_mq.Fsm.Typed.Steps.{each_partition-IsTyped, update_isr_and_hw-IsTyped}
use aero_mq.Fsm.Typed.Brokers.{get_active_broker_ids-All}

replica_leader-IsUint32 :
    (failed : ℕ) (brokers : Map ℕ BrokerStatus) (rs : List ℕ)
    → All IsUint32 rs
    → IsUint32 (replica_leader failed brokers rs)
unfolding replica_leader
replica_leader-IsUint32 failed brokers [] h = omega arith
replica_leader-IsUint32 failed brokers (r ∷ rs) h =
    ground (arith, h.0, replica_leader-IsUint32 failed brokers rs h.1)

choose_leader-IsUint32 :
    (failed : ℕ) (brokers : Map ℕ BrokerStatus) (fallback : ℕ) (rs : List ℕ)
    → IsUint32 fallback
    → All IsUint32 rs
    → IsUint32 (choose_leader failed brokers fallback rs)
unfolding choose_leader
choose_leader-IsUint32 failed brokers fallback rs u h =
    ground (arith, replica_leader-IsUint32 failed brokers rs h)

reelect-IsTyped :
    (failed : ℕ) (brokers : Map ℕ BrokerStatus) (fallback k : ℕ) (p : PartitionState)
    → IsUint32 fallback
    → IsTypedPartition k p
    → IsTypedPartition k (reelect failed brokers fallback p)
unfolding reelect
reelect-IsTyped failed brokers fallback k p u h = elim (Bool-cases (p.leader_id == failed)) [
  | inl e ↦ rw e (record {
    key = h.key;
    partition_id = h.partition_id;
    leader_id = choose_leader-IsUint32 failed brokers fallback p.replica_ids u h.replica_ids;
    replica_ids = h.replica_ids;
    isr = h.isr;
    high_watermark = h.high_watermark;
    replica_offsets = h.replica_offsets;
  })
  | inr e ↦ rw e h
]

reelect_all-IsTyped :
    (failed : ℕ) (ids : List ℕ) (s : ClusterState)
    → All IsUint32 ids
    → IsTyped s
    → IsTyped (reelect_all failed ids s)
unfolding reelect_all
reelect_all-IsTyped failed [] s u h = h
reelect_all-IsTyped failed (fallback ∷ ids) s u h = record {
  brokers = h.brokers;
  topics =
      each_partition-IsTyped (reelect failed s.brokers fallback) s.topics
        (λ k p q. reelect-IsTyped failed s.brokers fallback k p u.0 q) h.topics;
  groups = h.groups;
  offsets = h.offsets;
}

sweep_broker-IsTyped :
    (env : Env) (k : ℕ) (s : ClusterState) → IsTyped s → IsTyped (sweep_broker env k s)
unfolding sweep_broker handle_broker_failure
sweep_broker-IsTyped env k s h = elim (Option-cases (lookup k s.brokers)) [
  | inl n ↦ rw (n, sweep_broker) h
  | inr (b, n) ↦ elim (Bool-cases (is_expired env.now b)) [
    | inr e ↦ rw (n, e, sweep_broker) h
    | inl e ↦
        let s1 : ClusterState = record s { brokers = adjust k deactivate s.brokers } in
        let h1 : IsTyped s1 = record {
          brokers = adjust-IsMap k deactivate s.brokers (λ b q. q) h.brokers;
          topics = h.topics;
          groups = h.groups;
          offsets = h.offsets;
        } in
        rw (n, e, sweep_broker)
          (reelect_all-IsTyped b.id (get_active_broker_ids (env.failover_orders b.id) s1) s1
            (get_active_broker_ids-All (env.failover_orders b.id) s1 h1) h1)
  ]
]

sweep-IsTyped : (env : Env) (ks : List ℕ) (s : ClusterState) → IsTyped s → IsTyped (sweep env ks s)
unfolding sweep
sweep-IsTyped env [] s h = h
sweep-IsTyped env (k ∷ ks) s h =
    sweep-IsTyped env ks (sweep_broker env k s) (sweep_broker-IsTyped env k s h)

pub clean_inactive-IsTyped :
    (env : Env) (s : ClusterState) → IsTyped s → IsTyped (clean_inactive env s)
unfolding clean_inactive
clean_inactive-IsTyped env s h =
    update_isr_and_hw-IsTyped env.later _
      (sweep-IsTyped env (keys (arrange env.sweep_order s.brokers)) s h)
