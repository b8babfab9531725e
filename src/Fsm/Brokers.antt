-- ===== src/Fsm/Brokers.antt =====
-- The `register_broker` and `broker_heartbeat` commands of fsm.go.
pub mod Liveness
pub mod Lease
use aero_mq.Prelude.{ℕ, Bool, true, Option, none, some, List, [], ◌∷◌, Text, text_key, nat_key}
use aero_mq.Prelude.Int.{ℤ}
use aero_mq.Prelude.Map.{Map, lookup, insert, adjust}
use aero_mq.Fsm.State.{BrokerStatus, PartitionState, TopicState, ClusterState, Env, made}
use aero_mq.Fsm.Replication.{update_isr_and_hw}

pub record RegisterBrokerPayload : Type 0 where
  pub id : ℕ
  pub host : Text
  pub port : ℤ

unfoldable pub register_broker : Env → RegisterBrokerPayload → ClusterState → ClusterState
register_broker env payload s = record s {
  brokers =
      insert payload.id
        (record {
          id = payload.id;
          host = payload.host;
          port = payload.port;
          last_seen = env.now;
          active = true;
        })
        s.brokers;
}

pub record ReplicaOffset : Type 0 where
  pub topic : Text
  pub partition : ℕ
  pub offset : ℤ

pub record HeartbeatPayload : Type 0 where
  pub id : ℕ
  pub replica_offsets : List ReplicaOffset

-- A broker that has just been heard of.
abbrev pub seen : ℕ → BrokerStatus → BrokerStatus
seen now b = record b { last_seen = now; active = true }

-- `partitionState.ReplicaOffsets[id] = offset`, on a map that is made if it is nil
abbrev pub report : ℕ → ℤ → PartitionState → PartitionState
report id offset p = record p { replica_offsets = some (insert id offset (made p.replica_offsets)) }

abbrev pub adjust_partition : ℕ → (PartitionState → PartitionState) → TopicState → TopicState
adjust_partition p f t = record t { partitions = adjust p f t.partitions }

-- The loop over the payload's offsets. One for a topic or a partition that is not there is skipped.
unfoldable pub report_offsets : ℕ → List ReplicaOffset → Map Text TopicState → Map Text TopicState
report_offsets id [] topics = topics
report_offsets id (ro ∷ rest) topics =
    report_offsets id rest
      (adjust ro.topic (adjust_partition ro.partition (report id ro.offset)) topics)

unfoldable pub broker_heartbeat : Env → HeartbeatPayload → ClusterState → ClusterState
unfolding report_offsets
broker_heartbeat env payload s = update_isr_and_hw env.later (record s {
  brokers = adjust payload.id (seen env.now) s.brokers;
  topics = report_offsets payload.id payload.replica_offsets s.topics;
})
