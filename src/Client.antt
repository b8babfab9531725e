-- ===== src/Client.antt =====
-- client/main.go: the command line client's search for a broker and its exchange with it.
pub mod Args
pub mod Leader
pub mod Frames
pub mod Exchange
pub mod Commands
pub mod Integration
pub mod Consuming
pub mod Answered
