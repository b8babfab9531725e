-- ===== src/Server.antt =====
-- go-controller/pkg/grpcserver/server.go: the two gRPC services of a controller.
pub mod Messages
pub mod Listing
pub mod Payloads
pub mod Handlers
pub mod Written
pub mod Joins
pub mod Commits
pub mod Assigned
pub mod Offsets
pub mod Groups
pub mod Heartbeats
