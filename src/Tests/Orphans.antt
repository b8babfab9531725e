-- ===== src/Tests/Orphans.antt =====
-- Tests of Fsm/Orphans.
use aero_mq.Prelude.{◌≡◌, refl, true, some, [], ◌∷◌, All, text_key, nat_key}
use aero_mq.Prelude.Int.{pos}
use aero_mq.Prelude.Entries.{IsMap-nil}
use aero_mq.Prelude.Range.{arrange}
use aero_mq.Json.{read_struct, read_field, read_text, read_uint32, read_int32}
use aero_mq.Fsm.State.{PartitionState, ClusterState, new_fsm}
use aero_mq.Fsm.Commands.{read_command, read_register_broker}
use aero_mq.Fsm.Replication.{update_isr_and_hw, refresh_partition, new_isr, is_live, watermark}
use aero_mq.Fsm.Failover.{get_active_broker_ids}
use aero_mq.Fsm.Topics.{CreateTopicPayload, new_partition, create_topic}
use aero_mq.Fsm.Brokers.{register_broker}
use aero_mq.Fsm.Apply.{apply, op_of}
use aero_mq.Fsm.Replay.{replay}
use aero_mq.Fsm.Replay.Induction.{entry_passes}
use aero_mq.Fsm.Orphans.Replay.{replay-IsOrphan}
use aero_mq.Fsm.Orphans.{spares, IsOrphan}
use aero_mq.Tests.Apply.{log}
use aero_mq.Tests.Samples.{seconds, broker, orders_topic, at}

abbrev orphan : PartitionState
orphan = record {
  partition_id = 0;
  leader_id = 0;
  replica_ids = [];
  isr = [];
  high_watermark = pos 0;
  replica_offsets = some [];
}

abbrev orders_request : CreateTopicPayload
orders_request = record { name = orders_topic; partitions = 1; replication_factor = 2 }

abbrev orphaned : ClusterState
orphaned = record new_fsm {
  topics = (orders_topic, record { name = orders_topic; partitions = (0, orphan) ∷ [] }) ∷ [];
}

abbrev with_broker : ClusterState
with_broker = record orphaned { brokers = (1, broker 1 (seconds 2)) ∷ [] }

-- A topic that is created while there is no broker.
created_orphan : create_topic (at 0) orders_request new_fsm ≡ orphaned
unfolding create_topic update_isr_and_hw refresh_partition new_partition new_isr is_live watermark
    get_active_broker_ids arrange
created_orphan = refl

orphaned-IsOrphan : IsOrphan orders_topic 0 0 orphaned
orphaned-IsOrphan = record { named = IsMap-nil; gone = refl; led = refl }

log-passes : All (λ e. entry_passes (spares 0) e.1 ≡ true) log
unfolding entry_passes op_of read_command read_struct read_field read_text read_register_broker
    read_uint32 read_int32
log-passes = (refl, (refl, tt))

replay-log-orphaned : replay log orphaned ≡ some with_broker
unfolding replay apply read_command read_struct read_field read_text read_register_broker
    read_uint32 read_int32 register_broker
replay-log-orphaned = refl

replay-IsOrphan_example : IsOrphan orders_topic 0 0 with_broker
replay-IsOrphan_example =
    replay-IsOrphan log orphaned with_broker orders_topic 0 0 log-passes orphaned-IsOrphan
      replay-log-orphaned
