-- ===== src/Nvme.antt =====
-- The NVMe transfers (src/nvme_storage).
pub mod Canary
mod Tests
