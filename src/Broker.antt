-- ===== src/Broker.antt =====
-- rust-broker: what it reads from a connection.
pub mod Utf8
pub mod Requests
