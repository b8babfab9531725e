-- ===== src/Fsm/Typed/Topics.antt =====
-- The operations on brokers and topics keep every value in the range of its type.
use mathlib.Core.Path.{subst}
use aero_mq.Prelude.{
  nat_beq_iff, ℕ, zero, suc, ◌+◌, ◌%◌, ◌<◌, ◌^◌, ◌≡◌, Bool-cases, Option-cases, inl, inr, Option,
  none, some, List, [], ◌∷◌, length, All, nat_key, text_key, arith, ltb, some_inj,
}
use aero_mq.Prelude.Int.{ℤ, pos}
use aero_mq.Prelude.Map.{Map, lookup, insert}
use aero_mq.Prelude.Range.{arrange}
use aero_mq.Prelude.Entries.{IsMap, IsMap-nil, insert-IsMap, tail-IsMap, arrange-IsMap}
use aero_mq.Fsm.State.{PartitionState, ClusterState, Env}
use aero_mq.Fsm.Replication.{update_isr_and_hw}
use aero_mq.Fsm.Failover.{get_active_broker_ids}
use aero_mq.Fsm.Topics.{
  CreateTopicPayload, pick_replicas, choose_leader_id, choose_replicas, zero_offsets, new_partition,
  new_partitions, create_topic, AssignPartitionsPayload, with_offsets, assign_all,
  assign_partitions,
}
use aero_mq.Fsm.Typed.{IsUint32, AreOffsets, IsTypedPartition, IsTyped}
use aero_mq.Fsm.Typed.Readers.{IsTypedAssigned}
use aero_mq.Fsm.Typed.Steps.{get_or-All, if_All, update_isr_and_hw-IsTyped}
use aero_mq.Fsm.Typed.Brokers.{get_active_broker_ids-All}

pick_replicas-All :
    (ids : List ℕ) (i rounds r : ℕ) → All IsUint32 ids → All IsUint32 (pick_replicas ids i rounds r)
unfolding pick_replicas
pick_replicas-All ids i zero r h = tt
pick_replicas-All ids i (suc rounds) r h = (
  get_or-All ids ((i + r) % length ids) 0 h (omega arith),
  pick_replicas-All ids i rounds (suc r) h,
)

choose_replicas-All :
    (ids : List ℕ) (factor i : ℕ) → All IsUint32 ids → All IsUint32 (choose_replicas ids factor i)
unfolding choose_replicas
choose_replicas-All ids factor i h =
    if_All (ltb 0 (length ids)) _ _ (pick_replicas-All ids i _ 0 h) tt

choose_leader_id-IsUint32 :
    (ids : List ℕ) (i : ℕ) → All IsUint32 ids → IsUint32 (choose_leader_id ids i)
unfolding choose_leader_id
choose_leader_id-IsUint32 ids i h = elim (Bool-cases (ltb 0 (length ids))) [
  | inl e ↦ rw e (get_or-All ids (i % length ids) 0 h (omega arith))
  | inr e ↦ rw e (omega arith)
]

zero_offsets-AreOffsets :
    (rs : List ℕ) (m : Map ℕ ℤ) → All IsUint32 rs → AreOffsets m → AreOffsets (zero_offsets rs m)
unfolding zero_offsets
zero_offsets-AreOffsets [] m h w = w
zero_offsets-AreOffsets (r ∷ rs) m h w =
    zero_offsets-AreOffsets rs _ h.1 (insert-IsMap r (pos 0) m (h.0, omega arith) w)

new_partition-IsTyped :
    (ids : List ℕ) (factor i : ℕ)
    → All IsUint32 ids
    → IsUint32 i
    → IsTypedPartition i (new_partition ids factor i)
unfolding new_partition
new_partition-IsTyped ids factor i h u =
    let replicas = choose_replicas-All ids factor i h in
    record {
      key = u;
      partition_id = u;
      leader_id = choose_leader_id-IsUint32 ids i h;
      replica_ids = replicas;
      isr = replicas;
      high_watermark = omega arith;
      replica_offsets =
          zero_offsets-AreOffsets (choose_replicas ids factor i) [] replicas IsMap-nil;
    }

new_partitions-IsTyped :
    (ids : List ℕ) (factor rounds i : ℕ) (m : Map ℕ PartitionState)
    → All IsUint32 ids
    → i + rounds < 2 ^ 32
    → IsMap IsTypedPartition m
    → IsMap IsTypedPartition (new_partitions ids factor rounds i m)
unfolding new_partitions
new_partitions-IsTyped ids factor zero i m h u w = w
new_partitions-IsTyped ids factor (suc rounds) i m h u w =
    new_partitions-IsTyped ids factor rounds (suc i) _ h (omega arith) (
      insert-IsMap i (new_partition ids factor i) m
        (new_partition-IsTyped ids factor i h (omega arith)) w)

pub create_topic-IsTyped :
    (env : Env) (p : CreateTopicPayload) (s : ClusterState)
    → IsUint32 p.partitions
    → IsTyped s
    → IsTyped (create_topic env p s)
unfolding create_topic
create_topic-IsTyped env p s o h = elim (Option-cases (lookup p.name s.topics)) [
  | inr (t, e) ↦ rw (e, create_topic) h
  | inl e ↦
      let ids = get_active_broker_ids env.active_order s in
      let ids_typed = get_active_broker_ids-All env.active_order s h in
      rw (e, create_topic)
        (update_isr_and_hw-IsTyped env.later _ (record {
          brokers = h.brokers;
          topics =
              insert-IsMap p.name _ s.topics
                (new_partitions-IsTyped ids p.replication_factor p.partitions 0 [] ids_typed
                  (omega arith) IsMap-nil)
                h.topics;
          groups = h.groups;
          offsets = h.offsets;
        }))
]

with_offsets-IsTyped :
    (k : ℕ) (p : PartitionState) → IsTypedPartition k p → IsTypedPartition k (with_offsets p)
with_offsets-IsTyped k p h = record {
  key = h.key;
  partition_id = h.partition_id;
  leader_id = h.leader_id;
  replica_ids = h.replica_ids;
  isr = h.isr;
  high_watermark = h.high_watermark;
  replica_offsets = h.replica_offsets;
}

assign_all-IsTyped :
    (ps : Map ℕ (Option PartitionState)) (m m' : Map ℕ PartitionState)
    → IsMap IsTypedAssigned ps
    → IsMap IsTypedPartition m
    → assign_all ps m ≡ some m'
    → IsMap IsTypedPartition m'
unfolding assign_all
assign_all-IsTyped [] m m' h w e = subst (IsMap IsTypedPartition) (some_inj e) w
assign_all-IsTyped ((k, none) ∷ ps) m m' h w e = cc
assign_all-IsTyped ((k, some p) ∷ ps) m m' h w e =
    assign_all-IsTyped ps _ m' (tail-IsMap k (some p) ps h)
      (insert-IsMap k (with_offsets p) m
        (with_offsets-IsTyped k p (h.each k (some p) (ground (arith, nat_beq_iff k k)))) w)
      e

pub assign_partitions-IsTyped :
    (env : Env) (p : AssignPartitionsPayload) (s s' : ClusterState)
    → assign_partitions env p s ≡ some s'
    → IsMap IsTypedAssigned p.partitions
    → IsTyped s
    → IsTyped s'
unfolding assign_partitions
assign_partitions-IsTyped env p s s' e o h = elim (Option-cases (lookup p.topic s.topics)) [
  | inl n ↦ subst IsTyped (ground (arith, n, e)) h
  | inr (t, n) ↦
      elim (Option-cases (assign_all (arrange env.payload_order p.partitions) t.partitions)) [
        | inl q ↦ absurd (ground (arith, n, q, e))
        | inr (m, q) ↦
            subst IsTyped
              {x = update_isr_and_hw env.later
                (record s { topics = insert p.topic (record t { partitions = m }) s.topics })}
              (ground (arith, n, q, e))
              (update_isr_and_hw-IsTyped env.later _ (record {
                brokers = h.brokers;
                topics =
                    insert-IsMap p.topic (record t { partitions = m }) s.topics
                      (assign_all-IsTyped (arrange env.payload_order p.partitions) t.partitions m
                        (arrange-IsMap env.payload_order p.partitions o) (h.topics.each p.topic t n)
                        q)
                      h.topics;
                groups = h.groups;
                offsets = h.offsets;
              }))
      ]
]
