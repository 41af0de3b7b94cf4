-- ===== src/Client.antt =====
-- The client library (src/core/client.cc), as it is built without HCCL.
pub mod Status
pub mod BufferType
pub mod DataType
pub mod ReduceOp
pub mod Sizes
pub mod Memory
pub mod Buffer
pub mod Io
pub mod Files
pub mod Open
pub mod Table
pub mod Sim
mod Tests
pub mod Storage
