-- ===== src/Protocol.antt =====
-- src/protocol/framing.cc and framing.h: the frames of the storage agent's control plane.
pub mod Words
pub mod Reader
mod Tests
pub mod Stream
pub mod Frame
pub mod Checksum
pub mod FrameType
