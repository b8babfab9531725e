-- ===== src/Fsm/WellFormed.antt =====
-- The invariant of the cluster state: every map holds a key once, and what it holds under a key
-- carries that key as its name.
pub mod Topics
pub mod Steps
pub mod Replay
use aero_mq.Prelude.{ℕ, ◌≡◌, Text, nat_key, text_key, Distinct}
use aero_mq.Prelude.Map.{keys}
use aero_mq.Prelude.Entries.{IsMap}
use aero_mq.Fsm.State.{BrokerStatus, TopicState, GroupMember, ConsumerGroupState, ClusterState}

abbrev pub IsBroker : ℕ → BrokerStatus → Type 0
IsBroker k b = b.id ≡ k

abbrev pub IsTopic : Text → TopicState → Type 0
IsTopic k t = (t.name ≡ k) × Distinct (keys t.partitions)

abbrev pub IsMember : Text → GroupMember → Type 0
IsMember k m = m.id ≡ k

abbrev pub IsGroup : Text → ConsumerGroupState → Type 0
IsGroup k g = (g.group_id ≡ k) × IsMap IsMember g.members

pub record IsWellFormed (s : ClusterState) : Type 0 where
  pub brokers : IsMap IsBroker s.brokers
  pub topics : IsMap IsTopic s.topics
  pub groups : IsMap IsGroup s.consumer_groups
  pub offsets : Distinct (keys s.offsets)
