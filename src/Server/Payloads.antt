-- ===== src/Server/Payloads.antt =====
-- The payloads that server.go marshals. Their fields carry the names that fsm.go reads.
use aero_mq.Prelude.{codes}
use aero_mq.Json.{Json, str, num, obj, end, field}
use aero_mq.Fsm.Brokers.{RegisterBrokerPayload, HeartbeatPayload, ReplicaOffset}
use aero_mq.Fsm.Topics.{CreateTopicPayload}
use aero_mq.Fsm.Groups.{JoinGroupPayload}
use aero_mq.Fsm.Offsets.{CommitOffsetPayload}
use aero_mq.Json.Encode.{write_uint, write_list}

unfoldable pub write_register_broker : RegisterBrokerPayload → Json
write_register_broker p = obj (
    field (codes "id") (write_uint p.id)
      (field (codes "host") (str p.host) (field (codes "port") (num p.port) end)))

unfoldable pub write_replica_offset : ReplicaOffset → Json
write_replica_offset ro = obj (
    field (codes "topic") (str ro.topic) (
      field (codes "partition") (write_uint ro.partition)
        (field (codes "offset") (num ro.offset) end)))

unfoldable pub write_heartbeat : HeartbeatPayload → Json
unfolding write_replica_offset
write_heartbeat p = obj (
    field (codes "id") (write_uint p.id)
      (field (codes "replica_offsets") (write_list write_replica_offset p.replica_offsets) end))

unfoldable pub write_create_topic : CreateTopicPayload → Json
write_create_topic p = obj (
    field (codes "name") (str p.name) (
      field (codes "partitions") (write_uint p.partitions)
        (field (codes "replication_factor") (write_uint p.replication_factor) end)))

unfoldable pub write_join_group : JoinGroupPayload → Json
write_join_group p = obj (
    field (codes "group_id") (str p.group_id) (
      field (codes "member_id") (str p.member_id)
        (field (codes "topics") (write_list str p.topics) end)))

unfoldable pub write_commit_offset : CommitOffsetPayload → Json
write_commit_offset p = obj (
    field (codes "group_id") (str p.group_id) (
      field (codes "topic") (str p.topic) (
        field (codes "partition") (write_uint p.partition)
          (field (codes "offset") (num p.offset) end))))
