-- ===== src/Tests.antt =====
-- Tests of the definitions, and each theorem with hypotheses at an input that meets them.
mod Samples
mod Replication
mod Failover
mod Topics
mod Groups
mod Offsets
mod Brokers
mod Apply
mod Snapshot
mod Node
mod Server
mod Client
mod Commands
mod Orphans
mod Integration
mod Controller
mod Runs
