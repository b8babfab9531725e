-- ===== src/Server/Listing.antt =====
-- The loops of server.go that list a metadata's brokers, topics and partitions. `Orders` is the
-- order of each `range`; a list that a loop appends to is built from its back.
use aero_mq.Prelude.{
  ℕ, Option, none, some, List, [], ◌∷◌, ◌++◌, Text, contains, text_key, nat_key, ◌==◌,
  if◌then◌else◌,
}
use aero_mq.Prelude.Int.{ℤ, pos, leb_ℤ, ltb_ℤ}
use aero_mq.Prelude.Map.{Map, lookup, map_entries}
use aero_mq.Prelude.Range.{Order, arrange}
use aero_mq.Fsm.State.{
  BrokerStatus, PartitionState, TopicState, ConsumerGroupState, ClusterState, PartitionTopic, made,
}
use aero_mq.Fsm.State.Lookup.{find_partition}
use aero_mq.Fsm.Metadata.{get_metadata}
use aero_mq.Fsm.Offsets.{get_offset}
use aero_mq.Server.Messages.{
  BrokerInfo, PartitionAssignment, PartitionMetadata, TopicMetadata, TopicPartitionOffset,
}

pub record Orders : Type 0 where
  pub broker_order : Order
  pub topic_order : Order
  pub partition_orders : Text → Order

abbrev pub assignment : Text → ℕ → PartitionState → PartitionAssignment
assignment topic p partition = record {
  topic = topic;
  partition = p;
  leader_id = partition.leader_id;
  replica_ids = partition.replica_ids;
}

-- `assignedLeaders` and `assignedFollowers`.
pub record Assigned : Type 0 where
  pub leaders : List PartitionAssignment
  pub followers : List PartitionAssignment

-- One topic's round of `Heartbeat`, before what the later topics give.
unfoldable pub assign_partitions_of : ℕ → Text → Map ℕ PartitionState → Assigned → Assigned
assign_partitions_of id topic [] later = later
assign_partitions_of id topic ((p, partition) ∷ rest) later =
    let listed = assign_partitions_of id topic rest later in
    if partition.leader_id == id
    then record listed { leaders = assignment topic p partition ∷ listed.leaders }
    else if contains id partition.replica_ids
    then record listed { followers = assignment topic p partition ∷ listed.followers }
    else listed

unfoldable pub assign_topics : Orders → ℕ → Map Text TopicState → Assigned
unfolding assign_partitions_of
assign_topics o id [] = record { leaders = []; followers = [] }
assign_topics o id ((topic, t) ∷ rest) =
    assign_partitions_of id topic (arrange (o.partition_orders topic) t.partitions)
      (assign_topics o id rest)

unfoldable pub assigned_to : Orders → ℕ → ClusterState → Assigned
unfolding assign_topics
assigned_to o id meta = assign_topics o id (arrange o.topic_order meta.topics)

-- The active brokers of `GetMetadata`.
unfoldable pub list_brokers : Map ℕ BrokerStatus → List BrokerInfo
list_brokers [] = []
list_brokers ((k, b) ∷ rest) =
    let listed = list_brokers rest in
    if b.active then record { broker_id = b.id; host = b.host; port = b.port } ∷ listed else listed

unfoldable pub list_partitions : Map ℕ PartitionState → List PartitionMetadata
list_partitions [] = []
list_partitions ((p, partition) ∷ rest) =
    record {
      partition_id = p;
      leader_id = partition.leader_id;
      replica_ids = partition.replica_ids;
      isr = partition.isr;
      high_watermark = partition.high_watermark;
      replica_offsets = map_entries (λ _ v. v) (made partition.replica_offsets);
    }
    ∷ list_partitions rest

unfoldable pub list_topics : Orders → Map Text TopicState → List TopicMetadata
unfolding list_partitions
list_topics o [] = []
list_topics o ((topic, t) ∷ rest) =
    record {
      topic = topic;
      partitions = list_partitions (arrange (o.partition_orders topic) t.partitions);
    }
    ∷ list_topics o rest

-- The leader and the replicas that `JoinGroup` finds, 0 and none for a partition that is not there.
abbrev pub located : PartitionTopic → Option PartitionState → PartitionAssignment
located pt none = record {
  topic = pt.topic;
  partition = pt.partition;
  leader_id = 0;
  replica_ids = [];
}
located pt (some partition) = assignment pt.topic pt.partition partition

unfoldable pub locate_all : Map Text TopicState → List PartitionTopic → List PartitionAssignment
locate_all topics [] = []
locate_all topics (pt ∷ rest) =
    located pt (find_partition pt.topic pt.partition topics) ∷ locate_all topics rest

unfoldable pub member_assignments :
    ClusterState → ConsumerGroupState → Text → List PartitionAssignment
unfolding locate_all
member_assignments meta g member = elim (lookup member g.assignments) [
  | none ↦ []
  | some pts ↦ locate_all meta.topics pts
]

-- A committed offset, held down to the high watermark; -1 where there is none.
unfoldable pub clamp_offset : ℤ → PartitionState → ℤ
clamp_offset v partition =
    if leb_ℤ (pos 0) v
    then (if ltb_ℤ partition.high_watermark v then partition.high_watermark else v)
    else v

unfoldable pub fetch_partitions :
    ClusterState → Text → Text → Map ℕ PartitionState → List TopicPartitionOffset
unfolding clamp_offset
fetch_partitions s group topic [] = []
fetch_partitions s group topic ((p, partition) ∷ rest) =
    record {
      topic = topic;
      partition = p;
      offset = clamp_offset (get_offset s group topic p) partition;
    }
    ∷ fetch_partitions s group topic rest

unfoldable pub fetch_topics : Orders → ClusterState → Text → List Text → List TopicPartitionOffset
unfolding fetch_partitions
fetch_topics o s group [] = []
fetch_topics o s group (topic ∷ rest) =
    let fetched = fetch_topics o s group rest in
    elim (lookup topic (get_metadata (topic ∷ []) s).topics) [
      | none ↦ fetched
      | some t ↦
          fetch_partitions s group topic (arrange (o.partition_orders topic) t.partitions)
          ++ fetched
    ]
