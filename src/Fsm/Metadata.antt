-- ===== src/Fsm/Metadata.antt =====
-- `GetMetadata` of fsm.go: a deep copy of the state, of the topics that are asked for. Each loop
-- fills a fresh map with the entries it visits, so the order of the rounds does not show.
pub mod Copy
pub mod Topics
use aero_mq.Prelude.{
  ℕ, Bool, true, false, not, ◌&&◌, some, List, [], ◌∷◌, length, ltb, Text, text_key, contains,
  if◌then◌else◌,
}
use aero_mq.Prelude.Map.{Map, map_entries}
use aero_mq.Fsm.State.{
  PartitionState, TopicState, GroupMember, ConsumerGroupState, BrokerStatus, ClusterState, made,
}

unfoldable pub copy_broker : BrokerStatus → BrokerStatus
copy_broker b = record {
  id = b.id;
  host = b.host;
  port = b.port;
  last_seen = b.last_seen;
  active = b.active;
}

-- The copy's map of offsets is made even where the original is nil.
unfoldable pub copy_partition : PartitionState → PartitionState
copy_partition p = record {
  partition_id = p.partition_id;
  leader_id = p.leader_id;
  replica_ids = p.replica_ids;
  isr = p.isr;
  high_watermark = p.high_watermark;
  replica_offsets = some (map_entries (λ _ v. v) (made p.replica_offsets));
}

unfoldable pub copy_topic : TopicState → TopicState
copy_topic t = record {
  name = t.name;
  partitions = map_entries (λ _ p. copy_partition p) t.partitions;
}

-- `filter && !topicMap[k]`
unfoldable pub is_left_out : List Text → Text → Bool
is_left_out wanted k = ltb 0 (length wanted) && not (contains k wanted)

unfoldable pub copy_topics : List Text → Map Text TopicState → Map Text TopicState
copy_topics wanted [] = []
copy_topics wanted ((k, t) ∷ rest) =
    let copied = copy_topics wanted rest in
    if is_left_out wanted k then copied else (k, copy_topic t) ∷ copied

unfoldable pub copy_member : GroupMember → GroupMember
copy_member m = record { id = m.id; topics = m.topics; last_seen = m.last_seen }

unfoldable pub copy_group : ConsumerGroupState → ConsumerGroupState
unfolding copy_member
copy_group g = record {
  group_id = g.group_id;
  generation = g.generation;
  members = map_entries (λ _ m. copy_member m) g.members;
  assignments = map_entries (λ _ pts. pts) g.assignments;
}

unfoldable pub get_metadata : List Text → ClusterState → ClusterState
unfolding copy_topics
get_metadata wanted s = record {
  brokers = map_entries (λ _ b. copy_broker b) s.brokers;
  topics = copy_topics wanted s.topics;
  consumer_groups = map_entries (λ _ g. copy_group g) s.consumer_groups;
  offsets = map_entries (λ _ v. v) s.offsets;
}
