-- ===== src/Fsm/Topics.antt =====
-- The `create_topic` and `assign_partitions` commands of fsm.go.
pub mod Placement
pub mod Creation
use Prim.Native.Nat.{min}
use aero_mq.Prelude.{
  ℕ, zero, suc, ◌+◌, ◌%◌, Bool, true, false, Option, none, some, List, [], ◌∷◌, length, get_or, ltb,
  Text, text_key, nat_key, if◌then◌else◌,
}
use aero_mq.Prelude.Int.{ℤ, pos}
use aero_mq.Prelude.Map.{Map, lookup, insert}
use aero_mq.Prelude.Range.{Order, arrange}
use aero_mq.Fsm.State.{PartitionState, TopicState, ClusterState, Env, made, uint32_mod}
use aero_mq.Fsm.Replication.{update_isr_and_hw}
use aero_mq.Fsm.Failover.{get_active_broker_ids}

-- `activeBrokers[j % len(activeBrokers)]`, on a slice that is not empty
abbrev pub nth_broker : List ℕ → ℕ → ℕ
nth_broker ids j = get_or ids (j % length ids) 0

-- The loop over `r`, from `r` on for the rounds that are left. `int` has 64 bits, and holds the sum
-- of two uint32.
unfoldable pub pick_replicas : List ℕ → ℕ → ℕ → ℕ → List ℕ
pick_replicas ids i zero r = []
pick_replicas ids i (suc rounds) r = nth_broker ids (i + r) ∷ pick_replicas ids i rounds (suc r)

unfoldable pub choose_leader_id : List ℕ → ℕ → ℕ
choose_leader_id ids i = if ltb 0 (length ids) then nth_broker ids i else 0

unfoldable pub choose_replicas : List ℕ → ℕ → ℕ → List ℕ
unfolding pick_replicas
choose_replicas ids factor i =
    if ltb 0 (length ids) then pick_replicas ids i (min factor (length ids % uint32_mod)) 0 else []

-- `for _, rID := range replicas { ReplicaOffsets[rID] = 0 }`
unfoldable pub zero_offsets : List ℕ → Map ℕ ℤ → Map ℕ ℤ
zero_offsets [] m = m
zero_offsets (r ∷ rs) m = zero_offsets rs (insert r (pos 0) m)

unfoldable pub new_partition : List ℕ → ℕ → ℕ → PartitionState
unfolding choose_leader_id choose_replicas zero_offsets
new_partition ids factor i =
    let replicas = choose_replicas ids factor i in
    record {
      partition_id = i;
      leader_id = choose_leader_id ids i;
      replica_ids = replicas;
      isr = replicas;
      high_watermark = pos 0;
      replica_offsets = some (zero_offsets replicas []);
    }

-- The loop over `i`, for the rounds that are left.
unfoldable pub new_partitions : List ℕ → ℕ → ℕ → ℕ → Map ℕ PartitionState → Map ℕ PartitionState
new_partitions ids factor zero i m = m
new_partitions ids factor (suc rounds) i m =
    new_partitions ids factor rounds (suc i) (insert i (new_partition ids factor i) m)

pub record CreateTopicPayload : Type 0 where
  pub name : Text
  pub partitions : ℕ
  pub replication_factor : ℕ

unfoldable pub create_topic : Env → CreateTopicPayload → ClusterState → ClusterState
unfolding new_partitions
create_topic env payload s = elim (lookup payload.name s.topics) [
  | some _ ↦ s
  | none ↦
      let ids = get_active_broker_ids env.active_order s in
      let topic : TopicState = record {
        name = payload.name;
        partitions = new_partitions ids payload.replication_factor payload.partitions 0 [];
      } in
      update_isr_and_hw env.later (record s { topics = insert payload.name topic s.topics })
]

-- A nil partition is `none`.
pub record AssignPartitionsPayload : Type 0 where
  pub topic : Text
  pub partitions : Map ℕ (Option PartitionState)

-- The offsets of an assigned partition are made if they are nil.
abbrev pub with_offsets : PartitionState → PartitionState
with_offsets p = record p { replica_offsets = some (made p.replica_offsets) }

-- The loop over the payload's partitions; `none` is the panic on a nil partition.
unfoldable pub assign_all :
    List (ℕ × Option PartitionState) → Map ℕ PartitionState → Option (Map ℕ PartitionState)
assign_all [] m = some m
assign_all ((id, none) ∷ rest) m = none
assign_all ((id, some p) ∷ rest) m = assign_all rest (insert id (with_offsets p) m)

unfoldable pub assign_partitions :
    Env → AssignPartitionsPayload → ClusterState → Option ClusterState
unfolding assign_all
assign_partitions env payload s = elim (lookup payload.topic s.topics) [
  | none ↦ some s
  | some t ↦ elim (assign_all (arrange env.payload_order payload.partitions) t.partitions) [
    | none ↦ none
    | some m ↦ some (
        update_isr_and_hw env.later
          (record s { topics = insert payload.topic (record t { partitions = m }) s.topics }))
  ]
]
