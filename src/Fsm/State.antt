-- ===== src/Fsm/State.antt =====
-- The cluster state of fsm.go: its structs, `NewFSM`, and what an `Apply` takes from its
-- surroundings. Times are nanoseconds since the zero time. A slice is a list (nil and empty are
-- one), a map an association list, and a map that can be nil is an `Option`.
pub mod Lookup
use aero_mq.Prelude.{ℕ, ◌-◌, ◌*◌, ◌^◌, Bool, Option, none, some, List, [], Text}
use aero_mq.Prelude.Int.{ℤ}
use aero_mq.Prelude.Map.{Map, map_entries}
use aero_mq.Prelude.Range.{Order}

pub record PartitionTopic : Type 0 where
  pub topic : Text
  pub partition : ℕ

pub record BrokerStatus : Type 0 where
  pub id : ℕ
  pub host : Text
  pub port : ℤ
  pub last_seen : ℕ
  pub active : Bool

pub record PartitionState : Type 0 where
  pub partition_id : ℕ
  pub leader_id : ℕ
  pub replica_ids : List ℕ
  pub isr : List ℕ
  pub high_watermark : ℤ
  pub replica_offsets : Option (Map ℕ ℤ)

pub record TopicState : Type 0 where
  pub name : Text
  pub partitions : Map ℕ PartitionState

pub record GroupMember : Type 0 where
  pub id : Text
  pub topics : List Text
  pub last_seen : ℕ

pub record ConsumerGroupState : Type 0 where
  pub group_id : Text
  pub generation : ℕ
  pub members : Map Text GroupMember
  pub assignments : Map Text (List PartitionTopic)

pub record ClusterState : Type 0 where
  pub brokers : Map ℕ BrokerStatus
  pub topics : Map Text TopicState
  pub consumer_groups : Map Text ConsumerGroupState
  pub offsets : Map Text ℤ

abbrev pub new_fsm : ClusterState
new_fsm = record { brokers = []; topics = []; consumer_groups = []; offsets = [] }

-- A nil map reads as the empty one.
abbrev pub made : Option (Map ℕ ℤ) → Map ℕ ℤ
made none = []
made (some m) = m

abbrev pub uint32_mod : ℕ
uint32_mod = 2 ^ 32

-- 8*time.Second
abbrev pub lease : ℕ
lease = 8 * 10 ^ 9

-- `now.Sub(seen)`, which is only compared with `lease`: a negative duration reads as 0, and the
-- saturation at 292 years does not change the comparison.
abbrev pub elapsed : ℕ → ℕ → ℕ
elapsed now seen = now - seen

-- One run of a handler: its two readings of the clock, and the order of each `range` whose order
-- can be seen in the result.
pub record Env : Type 0 where
  pub now : ℕ
  pub later : ℕ
  pub active_order : Order
  pub sweep_order : Order
  pub failover_orders : ℕ → Order
  pub payload_order : Order
  pub member_order : Order
  pub subscription_order : Order
  pub partition_orders : Text → Order

-- `for _, topic := range Topics { for _, partition := range topic.Partitions { … } }`, where a round
-- touches its own partition only, so that the order of the rounds does not show.
abbrev pub over_topic : (PartitionState → PartitionState) → TopicState → TopicState
over_topic f t = record t { partitions = map_entries (λ _ p. f p) t.partitions }

abbrev pub each_partition :
    (PartitionState → PartitionState) → Map Text TopicState → Map Text TopicState
each_partition f topics = map_entries (λ _ t. over_topic f t) topics
