-- ===== src/Fsm/Snapshot.antt =====
-- `Snapshot`, `Restore` and `Persist` of fsm.go: the state as JSON and back. `json.Marshal` writes the
-- members of a map in the order of their keys' text; a map of the model is a list in some order, and
-- keeps it. A nil slice is written as the empty one, and a map that is missing is read as the empty
-- one; no snapshot of the program has either.
pub mod RoundTrip
pub mod Restore
use aero_mq.Prelude.{
  ℕ, Bool, Option, none, some, List, [], ◌∷◌, Text, codes, text_key, nat_key, true, false,
}
use aero_mq.Prelude.Int.{ℤ}
use aero_mq.Prelude.Decimal.{decimal_ℕ}
use aero_mq.Prelude.Map.{Map}
use aero_mq.Json.{
  Json, ◌>>=◌, null, bool, num, str, stamp, obj, Fields, end, field, read_struct, read_field,
  read_text, read_uint32, read_int32, read_int64, read_bool, read_time, read_list, read_map,
  read_dict, read_present,
}
use aero_mq.Json.Encode.{write_uint, write_list}
use aero_mq.Fsm.State.{
  PartitionTopic, BrokerStatus, PartitionState, TopicState, GroupMember, ConsumerGroupState,
  ClusterState,
}
use aero_mq.Fsm.Commands.{read_partition_state, or_empty}

module _ {K A : Type 0} where
  unfoldable pub write_entries : (K → Text) → (A → Json) → Map K A → Fields
  write_entries key write [] = end
  write_entries key write ((k, a) ∷ m) = field (key k) (write a) (write_entries key write m)

unfoldable pub write_map : {A : Type 0} → (A → Json) → Map ℕ A → Json
unfolding write_entries
write_map write m = obj (write_entries decimal_ℕ write m)

unfoldable pub write_dict : {A : Type 0} → (A → Json) → Map Text A → Json
unfolding write_entries
write_dict write m = obj (write_entries (λ k. k) write m)

unfoldable pub write_offsets : Option (Map ℕ ℤ) → Json
unfolding write_map
write_offsets none = null
write_offsets (some m) = write_map num m

unfoldable pub write_broker : BrokerStatus → Json
write_broker b = obj (
    field (codes "id") (write_uint b.id) (
      field (codes "host") (str b.host) (
        field (codes "port") (num b.port) (
          field (codes "last_seen") (stamp b.last_seen)
            (field (codes "active") (bool b.active) end)))))

unfoldable pub write_partition : PartitionState → Json
unfolding write_offsets
write_partition p = obj (
    field (codes "partition_id") (write_uint p.partition_id) (
      field (codes "leader_id") (write_uint p.leader_id) (
        field (codes "replica_ids") (write_list write_uint p.replica_ids) (
          field (codes "isr") (write_list write_uint p.isr) (
            field (codes "high_watermark") (num p.high_watermark)
              (field (codes "replica_offsets") (write_offsets p.replica_offsets) end))))))

unfoldable pub write_topic : TopicState → Json
unfolding write_map
write_topic t = obj (
    field (codes "name") (str t.name)
      (field (codes "partitions") (write_map write_partition t.partitions) end))

unfoldable pub write_member : GroupMember → Json
write_member m = obj (
    field (codes "id") (str m.id) (
      field (codes "topics") (write_list str m.topics)
        (field (codes "last_seen") (stamp m.last_seen) end)))

unfoldable pub write_partition_topic : PartitionTopic → Json
write_partition_topic pt =
    obj (
      field (codes "topic") (str pt.topic)
        (field (codes "partition") (write_uint pt.partition) end))

unfoldable pub write_group : ConsumerGroupState → Json
unfolding write_dict
write_group g = obj (
    field (codes "group_id") (str g.group_id) (
      field (codes "generation") (write_uint g.generation) (
        field (codes "members") (write_dict write_member g.members) (
          field (codes "assignments") (write_dict (write_list write_partition_topic) g.assignments)
            end))))

-- `json.Marshal(f.state)`
unfoldable pub snapshot : ClusterState → Json
unfolding write_map write_dict
snapshot s = obj (
    field (codes "brokers") (write_map write_broker s.brokers) (
      field (codes "topics") (write_dict write_topic s.topics) (
        field (codes "consumer_groups") (write_dict write_group s.consumer_groups)
          (field (codes "offsets") (write_dict num s.offsets) end))))

unfoldable pub read_broker : Json → Option BrokerStatus
read_broker j = do
  fs ← read_struct j
  id ← read_field read_uint32 (codes "id") fs
  host ← read_field read_text (codes "host") fs
  port ← read_field read_int32 (codes "port") fs
  last_seen ← read_field read_time (codes "last_seen") fs
  active ← read_field read_bool (codes "active") fs
  some (record { id = id; host = host; port = port; last_seen = last_seen; active = active })

unfoldable pub read_topic : Json → Option TopicState
read_topic j = do
  fs ← read_struct j
  name ← read_field read_text (codes "name") fs
  partitions ← read_field (read_map (read_present read_partition_state)) (codes "partitions") fs
  some (record { name = name; partitions = or_empty partitions })

unfoldable pub read_member : Json → Option GroupMember
read_member j = do
  fs ← read_struct j
  id ← read_field read_text (codes "id") fs
  topics ← read_field (read_list read_text) (codes "topics") fs
  last_seen ← read_field read_time (codes "last_seen") fs
  some (record { id = id; topics = topics; last_seen = last_seen })

unfoldable pub read_partition_topic : Json → Option PartitionTopic
read_partition_topic j = do
  fs ← read_struct j
  topic ← read_field read_text (codes "topic") fs
  partition ← read_field read_uint32 (codes "partition") fs
  some (record { topic = topic; partition = partition })

unfoldable pub read_group : Json → Option ConsumerGroupState
unfolding read_member read_partition_topic
read_group j = do
  fs ← read_struct j
  group_id ← read_field read_text (codes "group_id") fs
  generation ← read_field read_uint32 (codes "generation") fs
  members ← read_field (read_dict (read_present read_member)) (codes "members") fs
  assignments ← read_field (read_dict (read_list read_partition_topic)) (codes "assignments") fs
  some (record {
    group_id = group_id;
    generation = generation;
    members = or_empty members;
    assignments = or_empty assignments;
  })

unfoldable pub read_state : Json → Option ClusterState
unfolding read_broker read_topic read_group
read_state j = do
  fs ← read_struct j
  brokers ← read_field (read_map (read_present read_broker)) (codes "brokers") fs
  topics ← read_field (read_dict (read_present read_topic)) (codes "topics") fs
  groups ← read_field (read_dict (read_present read_group)) (codes "consumer_groups") fs
  offsets ← read_field (read_dict read_int64) (codes "offsets") fs
  some (record {
    brokers = or_empty brokers;
    topics = or_empty topics;
    consumer_groups = or_empty groups;
    offsets = or_empty offsets;
  })

-- `Restore`: the state afterwards, and whether an error is returned. `data` is none where it is no
-- JSON or cannot be read; a null where the state has a pointer, which no snapshot has, is taken as
-- an error too.
unfoldable pub restore : Option Json → ClusterState → ClusterState × Bool
unfolding read_state
restore content s = elim (content >>= read_state) [ none ↦ (s, true) | some s' ↦ (s', false) ]

-- The calls that `Persist` makes of its sink. A write or a close may fail, with an error's text.
pub data SinkCall : Type 0 where
  sink_write : Json → SinkCall
  sink_close : SinkCall
  sink_cancel : SinkCall

unfoldable pub persist : Json → Option Text → Option Text → List SinkCall × Option Text
persist content (some e) close_error = (sink_write content ∷ sink_cancel ∷ [], some e)
persist content none (some e) = (sink_write content ∷ sink_close ∷ sink_cancel ∷ [], some e)
persist content none none = (sink_write content ∷ sink_close ∷ [], none)
