-- ===== src/Client/Buffer.antt =====
-- src/core/client.cc: flume_buffer, its types and its ranges. A buffer stands for its handle; the
-- counts of references to it are kept beside the memory.
use flume_ascend_host_bypass.Prelude.{ℕ, ◌-◌, Bool, ◌&&◌, ◌||◌, leb, ◌==◌}
use flume_ascend_host_bypass.Client.BufferType

pub record Buffer : Type 0 where
  pub handle : ℕ
  pub client : ℕ
  pub ptr : ℕ
  pub len : ℕ
  pub type : ℕ

unfoldable pub is_sim_buffer_type : ℕ → Bool
is_sim_buffer_type type = (type == BufferType.sim_hbm) || (type == BufferType.sim_hccl_comm)

unfoldable pub is_readable_local_type : ℕ → Bool
unfolding is_sim_buffer_type
is_readable_local_type type = (type == BufferType.host) || is_sim_buffer_type type

unfoldable pub is_real_hccl_buffer_type : ℕ → Bool
is_real_hccl_buffer_type type = (type == BufferType.ascend_hbm) || (type == BufferType.hccl_comm)

-- The build without HCCL.
unfoldable pub is_registerable_buffer_type : ℕ → Bool
unfolding is_sim_buffer_type
is_registerable_buffer_type type = (type == BufferType.host) || is_sim_buffer_type type

unfoldable pub is_collective_buffer_type : ℕ → Bool
unfolding is_sim_buffer_type is_real_hccl_buffer_type
is_collective_buffer_type type = is_sim_buffer_type type || is_real_hccl_buffer_type type

unfoldable pub validate_range : Buffer → ℕ → ℕ → Bool
validate_range buffer offset len = leb offset buffer.len && leb len (buffer.len - offset)
