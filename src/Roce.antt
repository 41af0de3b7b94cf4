-- ===== src/Roce.antt =====
-- src/roce_storage: the messages of the RoCE storage protocol, its TCP control channel, its storage in
-- memory, and the lifecycle of a session.
pub mod Words
pub mod Command
pub mod Endpoint
pub mod Session
pub mod Lifecycle
pub mod Control
pub mod Memory
mod Tests
