-- ===== src/Server/Offsets.antt =====
-- What `FetchOffsets` answers.
use aero_mq.Prelude.{ℕ, ◌≡◌, some, Text, text_key, nat_key}
use aero_mq.Prelude.Int.{pos, ◌≤ℤ◌}
use aero_mq.Prelude.Map.{Map, lookup}
use aero_mq.Fsm.State.{PartitionState, ClusterState}
use aero_mq.Fsm.State.Lookup.{find_partition}
use aero_mq.Fsm.Offsets.{get_offset}
use aero_mq.Server.Messages.{TopicPartitionOffset}

-- An answer is of a partition of the state. It is at most the committed offset, and that offset
-- where the high watermark reaches it; if the committed offset is not negative, it is at most the
-- high watermark.
pub record IsClamped (s : ClusterState) (group : Text) (v : TopicPartitionOffset) : Type 0 where
  pub partition : PartitionState
  pub found : find_partition v.topic v.partition s.topics ≡ some partition
  pub at_most : v.offset ≤ℤ get_offset s group v.topic v.partition
  pub exact :
      get_offset s group v.topic v.partition ≤ℤ partition.high_watermark
      → v.offset ≡ get_offset s group v.topic v.partition
  pub held : pos 0 ≤ℤ get_offset s group v.topic v.partition → v.offset ≤ℤ partition.high_watermark

-- Each entry is a copy of a partition of the state.
abbrev AreCopies : ClusterState → Text → Map ℕ PartitionState → Type 0
AreCopies s topic m =
    (p : ℕ) (copied : PartitionState)
    → lookup p m ≡ some copied
    → (ps : PartitionState) × (find_partition topic p s.topics ≡ some ps)
      × (ps.high_watermark ≡ copied.high_watermark)
