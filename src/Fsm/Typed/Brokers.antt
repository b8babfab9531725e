-- ===== src/Fsm/Typed/Brokers.antt =====
-- What brokers register and report stays in range, and so do the ids of the active ones.
use aero_mq.Prelude.{nat_beq_iff, ℕ, List, [], ◌∷◌, All, Text, nat_key, text_key, arith}
use aero_mq.Prelude.Int.{ℤ}
use aero_mq.Prelude.Map.{Map}
use aero_mq.Prelude.Range.{Order, arrange}
use aero_mq.Prelude.Entries.{IsMap, insert-IsMap, adjust-IsMap, tail-IsMap, arrange-IsMap}
use aero_mq.Fsm.State.{BrokerStatus, PartitionState, TopicState, ClusterState, Env, made}
use aero_mq.Fsm.Brokers.{
  RegisterBrokerPayload, HeartbeatPayload, ReplicaOffset, register_broker, broker_heartbeat,
  report_offsets, report, seen, adjust_partition,
}
use aero_mq.Fsm.Failover.{active_ids, get_active_broker_ids}
use aero_mq.Fsm.Typed.{
  IsUint32, IsInt32, IsInt64, IsTypedBroker, IsTypedPartition, IsTypedTopic, IsTyped,
}
use aero_mq.Fsm.Typed.Readers.{IsTypedReport}
use aero_mq.Fsm.Typed.Steps.{if_All, update_isr_and_hw-IsTyped}

pub register_broker-IsTyped :
    (env : Env) (p : RegisterBrokerPayload) (s : ClusterState)
    → IsUint32 p.id × IsInt32 p.port
    → IsTyped s
    → IsTyped (register_broker env p s)
unfolding register_broker
register_broker-IsTyped env p s o h = record {
  brokers = insert-IsMap p.id _ s.brokers (o.0, o.0, o.1) h.brokers;
  topics = h.topics;
  groups = h.groups;
  offsets = h.offsets;
}

-- The report of a broker goes into the partition's map of offsets.
report-IsTyped :
    (id : ℕ) (v : ℤ) (k : ℕ) (p : PartitionState)
    → IsUint32 id
    → IsInt64 v
    → IsTypedPartition k p
    → IsTypedPartition k (report id v p)
report-IsTyped id v k p u w h = record {
  key = h.key;
  partition_id = h.partition_id;
  leader_id = h.leader_id;
  replica_ids = h.replica_ids;
  isr = h.isr;
  high_watermark = h.high_watermark;
  replica_offsets = insert-IsMap id v (made p.replica_offsets) (u, w) h.replica_offsets;
}

report_offsets-IsTyped :
    (id : ℕ) (ros : List ReplicaOffset) (topics : Map Text TopicState)
    → IsUint32 id
    → All IsTypedReport ros
    → IsMap IsTypedTopic topics
    → IsMap IsTypedTopic (report_offsets id ros topics)
unfolding report_offsets
report_offsets-IsTyped id [] topics u o h = h
report_offsets-IsTyped id (ro ∷ ros) topics u o h = report_offsets-IsTyped id ros _ u o.1 (
    adjust-IsMap ro.topic (adjust_partition ro.partition (report id ro.offset)) topics
      (λ t q.
        adjust-IsMap ro.partition (report id ro.offset) t.partitions
          (λ p r. report-IsTyped id ro.offset ro.partition p u o.0.1 r) q)
      h)

pub broker_heartbeat-IsTyped :
    (env : Env) (p : HeartbeatPayload) (s : ClusterState)
    → IsUint32 p.id × All IsTypedReport p.replica_offsets
    → IsTyped s
    → IsTyped (broker_heartbeat env p s)
unfolding broker_heartbeat
broker_heartbeat-IsTyped env p s o h = update_isr_and_hw-IsTyped env.later _ (record {
  brokers = adjust-IsMap p.id (seen env.now) s.brokers (λ b q. q) h.brokers;
  topics = report_offsets-IsTyped p.id p.replica_offsets s.topics o.0 o.1 h.topics;
  groups = h.groups;
  offsets = h.offsets;
})

active_ids-All : (m : Map ℕ BrokerStatus) → IsMap IsTypedBroker m → All IsUint32 (active_ids m)
unfolding active_ids
active_ids-All [] h = tt
active_ids-All ((id, b) ∷ m) h =
    let rest = active_ids-All m (tail-IsMap id b m h) in
    if_All b.active _ _ ((h.each id b (ground (arith, nat_beq_iff id id))).0, rest) rest

pub get_active_broker_ids-All :
    (o : Order) (s : ClusterState) → IsTyped s → All IsUint32 (get_active_broker_ids o s)
unfolding get_active_broker_ids
get_active_broker_ids-All o s h =
    active_ids-All (arrange o s.brokers) (arrange-IsMap o s.brokers h.brokers)
