-- ===== src/Fsm/Typed.antt =====
-- The values of a state are in the range of their Go types, and each map holds a key once.
pub mod Values
pub mod Readers
pub mod Steps
pub mod Brokers
pub mod Topics
pub mod Groups
pub mod Failover
pub mod Replay
use aero_mq.Prelude.{ℕ, ◌<◌, ◌^◌, ◌≡◌, Option, List, All, Text, nat_key, text_key, Distinct}
use aero_mq.Prelude.Int.{ℤ, IsIn}
use aero_mq.Prelude.Map.{Map, keys}
use aero_mq.Prelude.Entries.{IsMap}
use aero_mq.Fsm.State.{
  PartitionTopic, BrokerStatus, PartitionState, TopicState, GroupMember, ConsumerGroupState,
  ClusterState, made,
}

abbrev pub IsUint32 : ℕ → Type 0
IsUint32 n = n < 2 ^ 32

abbrev pub IsInt32 : ℤ → Type 0
IsInt32 v = IsIn (2 ^ 31) v

abbrev pub IsInt64 : ℤ → Type 0
IsInt64 v = IsIn (2 ^ 63) v

abbrev pub IsTypedBroker : ℕ → BrokerStatus → Type 0
IsTypedBroker k b = IsUint32 k × IsUint32 b.id × IsInt32 b.port

abbrev pub AreOffsets : Map ℕ ℤ → Type 0
AreOffsets m = IsMap (λ k v. IsUint32 k × IsInt64 v) m

pub record IsTypedPartition (k : ℕ) (p : PartitionState) : Type 0 where
  pub key : IsUint32 k
  pub partition_id : IsUint32 p.partition_id
  pub leader_id : IsUint32 p.leader_id
  pub replica_ids : All IsUint32 p.replica_ids
  pub isr : All IsUint32 p.isr
  pub high_watermark : IsInt64 p.high_watermark
  pub replica_offsets : AreOffsets (made p.replica_offsets)

abbrev pub IsTypedTopic : Text → TopicState → Type 0
IsTypedTopic k t = IsMap IsTypedPartition t.partitions

abbrev pub IsTypedPair : PartitionTopic → Type 0
IsTypedPair pt = IsUint32 pt.partition

pub record IsTypedGroup (k : Text) (g : ConsumerGroupState) : Type 0 where
  pub generation : IsUint32 g.generation
  pub members : Distinct (keys g.members)
  pub assignments : IsMap (λ _ pts. All IsTypedPair pts) g.assignments

pub record IsTyped (s : ClusterState) : Type 0 where
  pub brokers : IsMap IsTypedBroker s.brokers
  pub topics : IsMap IsTypedTopic s.topics
  pub groups : IsMap IsTypedGroup s.consumer_groups
  pub offsets : IsMap (λ _ v. IsInt64 v) s.offsets
