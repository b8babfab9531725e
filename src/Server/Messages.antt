-- ===== src/Server/Messages.antt =====
-- The messages of proto/control.proto, as the structs of control.pb.go.
use aero_mq.Prelude.{ℕ, Bool, List, Text}
use aero_mq.Prelude.Int.{ℤ}
use aero_mq.Prelude.Map.{Map}

pub record BrokerInfo : Type 0 where
  pub broker_id : ℕ
  pub host : Text
  pub port : ℤ

pub record PartitionAssignment : Type 0 where
  pub topic : Text
  pub partition : ℕ
  pub leader_id : ℕ
  pub replica_ids : List ℕ

pub record RegisterBrokerRequest : Type 0 where
  pub broker_id : ℕ
  pub host : Text
  pub data_port : ℤ

pub record RegisterBrokerResponse : Type 0 where
  pub success : Bool
  pub message : Text

pub record OffsetReport : Type 0 where
  pub topic : Text
  pub partition : ℕ
  pub offset : ℤ

pub record HeartbeatRequest : Type 0 where
  pub broker_id : ℕ
  pub disk_usage_bytes : ℕ
  pub disk_free_bytes : ℕ
  pub replica_offsets : List OffsetReport

pub record HeartbeatResponse : Type 0 where
  pub success : Bool
  pub assigned_leaders : List PartitionAssignment
  pub assigned_followers : List PartitionAssignment

pub record MetadataRequest : Type 0 where
  pub topics : List Text

pub record PartitionMetadata : Type 0 where
  pub partition_id : ℕ
  pub leader_id : ℕ
  pub replica_ids : List ℕ
  pub isr : List ℕ
  pub high_watermark : ℤ
  pub replica_offsets : Map ℕ ℤ

pub record TopicMetadata : Type 0 where
  pub topic : Text
  pub partitions : List PartitionMetadata

pub record MetadataResponse : Type 0 where
  pub brokers : List BrokerInfo
  pub topics : List TopicMetadata

pub record CreateTopicRequest : Type 0 where
  pub topic : Text
  pub partitions : ℕ
  pub replication_factor : ℕ

pub record CreateTopicResponse : Type 0 where
  pub success : Bool
  pub message : Text

pub record JoinGroupRequest : Type 0 where
  pub group_id : Text
  pub member_id : Text
  pub topics : List Text

pub record JoinGroupResponse : Type 0 where
  pub member_id : Text
  pub generation_id : ℕ
  pub assignments : List PartitionAssignment

pub record HeartbeatGroupRequest : Type 0 where
  pub group_id : Text
  pub member_id : Text
  pub generation_id : ℕ

pub data GroupStatus : Type 0 where
  ok_status : GroupStatus
  rebalance_in_progress : GroupStatus
  unknown_member : GroupStatus

pub record TopicPartitionOffset : Type 0 where
  pub topic : Text
  pub partition : ℕ
  pub offset : ℤ

pub record CommitOffsetsRequest : Type 0 where
  pub group_id : Text
  pub member_id : Text
  pub generation_id : ℕ
  pub offsets : List TopicPartitionOffset

pub record CommitOffsetsResponse : Type 0 where
  pub success : Bool

pub record FetchOffsetsRequest : Type 0 where
  pub group_id : Text
  pub topics : List Text
