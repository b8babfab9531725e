-- ===== src/Fsm/Commands.antt =====
-- The commands of fsm.go: their names, and how `Apply` reads a log entry.
use aero_mq.Prelude.{Option, none, some, List, [], Text, codes, text_key}
use aero_mq.Json.{
  Json, ◌>>=◌, read_struct, read_field, read_text, read_uint32, read_int32, read_int64, read_list,
  read_map, read_pointer, find_field,
}
use aero_mq.Fsm.State.{PartitionState}
use aero_mq.Fsm.Brokers.{RegisterBrokerPayload, HeartbeatPayload, ReplicaOffset}
use aero_mq.Fsm.Topics.{CreateTopicPayload, AssignPartitionsPayload}
use aero_mq.Fsm.Groups.{JoinGroupPayload}
use aero_mq.Fsm.Offsets.{CommitOffsetPayload}

abbrev pub cmd_register_broker : Text
cmd_register_broker = codes "register_broker"

abbrev pub cmd_broker_heartbeat : Text
cmd_broker_heartbeat = codes "broker_heartbeat"

abbrev pub cmd_create_topic : Text
cmd_create_topic = codes "create_topic"

abbrev pub cmd_assign_partitions : Text
cmd_assign_partitions = codes "assign_partitions"

abbrev pub cmd_join_consumer_group : Text
cmd_join_consumer_group = codes "join_consumer_group"

abbrev pub cmd_commit_offset : Text
cmd_commit_offset = codes "commit_offset"

abbrev pub cmd_clean_inactive : Text
cmd_clean_inactive = codes "clean_inactive"

-- `payload` is `none` where the entry has no such member.
pub record Command : Type 0 where
  pub op : Text
  pub payload : Option Json

unfoldable pub read_command : Json → Option Command
read_command j = do
  fs ← read_struct j
  op ← read_field read_text (codes "op") fs
  some (record { op = op; payload = find_field (codes "payload") fs })

unfoldable pub read_register_broker : Json → Option RegisterBrokerPayload
read_register_broker j = do
  fs ← read_struct j
  id ← read_field read_uint32 (codes "id") fs
  host ← read_field read_text (codes "host") fs
  port ← read_field read_int32 (codes "port") fs
  some (record { id = id; host = host; port = port })

unfoldable pub read_replica_offset : Json → Option ReplicaOffset
read_replica_offset j = do
  fs ← read_struct j
  topic ← read_field read_text (codes "topic") fs
  partition ← read_field read_uint32 (codes "partition") fs
  offset ← read_field read_int64 (codes "offset") fs
  some (record { topic = topic; partition = partition; offset = offset })

unfoldable pub read_heartbeat : Json → Option HeartbeatPayload
unfolding read_replica_offset
read_heartbeat j = do
  fs ← read_struct j
  id ← read_field read_uint32 (codes "id") fs
  offsets ← read_field (read_list read_replica_offset) (codes "replica_offsets") fs
  some (record { id = id; replica_offsets = offsets })

unfoldable pub read_create_topic : Json → Option CreateTopicPayload
read_create_topic j = do
  fs ← read_struct j
  name ← read_field read_text (codes "name") fs
  partitions ← read_field read_uint32 (codes "partitions") fs
  factor ← read_field read_uint32 (codes "replication_factor") fs
  some (record { name = name; partitions = partitions; replication_factor = factor })

unfoldable pub read_partition_state : Json → Option PartitionState
read_partition_state j = do
  fs ← read_struct j
  id ← read_field read_uint32 (codes "partition_id") fs
  leader ← read_field read_uint32 (codes "leader_id") fs
  replicas ← read_field (read_list read_uint32) (codes "replica_ids") fs
  isr ← read_field (read_list read_uint32) (codes "isr") fs
  hw ← read_field read_int64 (codes "high_watermark") fs
  offsets ← read_field (read_map read_int64) (codes "replica_offsets") fs
  some (record {
    partition_id = id;
    leader_id = leader;
    replica_ids = replicas;
    isr = isr;
    high_watermark = hw;
    replica_offsets = offsets;
  })

-- The nil map of partitions is ranged over as the empty one.
abbrev pub or_empty {ℓ} : {A : Type ℓ} → Option (List A) → List A
or_empty none = []
or_empty (some m) = m

unfoldable pub read_assign_partitions : Json → Option AssignPartitionsPayload
unfolding read_partition_state
read_assign_partitions j = do
  fs ← read_struct j
  topic ← read_field read_text (codes "topic") fs
  partitions ← read_field (read_map (read_pointer read_partition_state)) (codes "partitions") fs
  some (record { topic = topic; partitions = or_empty partitions })

unfoldable pub read_join_group : Json → Option JoinGroupPayload
read_join_group j = do
  fs ← read_struct j
  group_id ← read_field read_text (codes "group_id") fs
  member_id ← read_field read_text (codes "member_id") fs
  topics ← read_field (read_list read_text) (codes "topics") fs
  some (record { group_id = group_id; member_id = member_id; topics = topics })

unfoldable pub read_commit_offset : Json → Option CommitOffsetPayload
read_commit_offset j = do
  fs ← read_struct j
  group_id ← read_field read_text (codes "group_id") fs
  topic ← read_field read_text (codes "topic") fs
  partition ← read_field read_uint32 (codes "partition") fs
  offset ← read_field read_int64 (codes "offset") fs
  some (record { group_id = group_id; topic = topic; partition = partition; offset = offset })
