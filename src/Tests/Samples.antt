-- ===== src/Tests/Samples.antt =====
-- A small cluster: brokers 1 and 2, one topic with one partition, one consumer group.
use aero_mq.Prelude.{ℕ, ◌*◌, ◌^◌, true, some, [], ◌∷◌, Text, codes}
use aero_mq.Prelude.Int.{pos}
use aero_mq.Fsm.State.{
  BrokerStatus, PartitionState, TopicState, GroupMember, ConsumerGroupState, ClusterState, Env,
}

-- Seconds, in nanoseconds.
abbrev pub seconds : ℕ → ℕ
seconds n = n * 10 ^ 9

abbrev pub broker : ℕ → ℕ → BrokerStatus
broker id last_seen = record {
  id = id;
  host = codes "127.0.0.1";
  port = pos 9091;
  last_seen = last_seen;
  active = true;
}

abbrev pub orders_topic : Text
orders_topic = codes "orders"

abbrev pub partition_0 : PartitionState
partition_0 = record {
  partition_id = 0;
  leader_id = 1;
  replica_ids = 1 ∷ 2 ∷ [];
  isr = 1 ∷ 2 ∷ [];
  high_watermark = pos 0;
  replica_offsets = some ((1, pos 40) ∷ (2, pos 35) ∷ []);
}

abbrev pub orders : TopicState
orders = record { name = orders_topic; partitions = (0, partition_0) ∷ [] }

abbrev pub alice : GroupMember
alice = record { id = codes "alice"; topics = orders_topic ∷ []; last_seen = 0 }

abbrev pub bob : GroupMember
bob = record { id = codes "bob"; topics = orders_topic ∷ []; last_seen = 0 }

abbrev pub readers : ConsumerGroupState
readers = record {
  group_id = codes "readers";
  generation = 3;
  members = (codes "alice", alice) ∷ (codes "bob", bob) ∷ [];
  assignments = [];
}

-- Broker 1 was last seen at 0 s, broker 2 at 5 s.
abbrev pub cluster : ClusterState
cluster = record {
  brokers = (1, broker 1 0) ∷ (2, broker 2 (seconds 5)) ∷ [];
  topics = (orders_topic, orders) ∷ [];
  consumer_groups = (codes "readers", readers) ∷ [];
  offsets = [];
}

-- A run at a time, with the maps visited as they stand.
abbrev pub at : ℕ → Env
at now = record {
  now = now;
  later = now;
  active_order = [];
  sweep_order = [];
  failover_orders = λ _. [];
  payload_order = [];
  member_order = [];
  subscription_order = [];
  partition_orders = λ _. [];
}
