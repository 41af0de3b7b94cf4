-- ===== src/Payload.antt =====
-- The plans of the HCOMM payload transfers (src/hcomm_payload).
pub mod Plan
pub mod Resources
mod Tests
