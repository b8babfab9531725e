-- ===== src/Fsm.antt =====
-- go-controller/pkg/consensus/fsm.go: the replicated state machine of the controller.
pub mod State
pub mod Replication
pub mod Failover
pub mod Topics
pub mod Groups
pub mod Metadata
pub mod Offsets
pub mod Brokers
pub mod Commands
pub mod Apply
pub mod Replay
pub mod WellFormed
pub mod Kept
pub mod Orphans
pub mod Known
pub mod Lasting
pub mod Snapshot
pub mod Typed
