-- ===== src/Client/Storage.antt =====
-- src/core/client.cc: blocks read from storage, the windows that receive them, and the plans of
-- their transfer. A null pointer is none.
mod Tests
pub mod Plan
pub mod Transfer
pub mod Direct
pub mod Prepare
use flume_ascend_host_bypass.Prelude.{
  ℕ, ◌+◌, ◌-◌, ◌*◌, ◌%◌, ◌^◌, Bool, true, false, not, ◌&&◌, ◌||◌, Option, none, some, List, length,
  bit_xor, ltb, leb, ◌==◌, ◌!=◌, if◌then◌else◌,
}
use flume_ascend_host_bypass.Protocol.Checksum.{checksum32}
use flume_ascend_host_bypass.Client.Status
use flume_ascend_host_bypass.Client.BufferType
use flume_ascend_host_bypass.Client.Memory.{Memory, load, store}
use flume_ascend_host_bypass.Client.Buffer.{
  Buffer, validate_range, is_real_hccl_buffer_type, is_sim_buffer_type,
}
use flume_ascend_host_bypass.Client.Io.{
  Io, Detail, silent, not_in_build, comm_to_hbm, no_hbm_path, make_io,
}
use flume_ascend_host_bypass.Client.Sim.{
  Client, Store, retain_pending_buffer, release_pending_buffer,
}

pub record Block : Type 0 where
  pub client : ℕ
  pub payload : List ℕ
  pub file_offset : ℕ

-- The return value, the request that *out is set to, and the memory.
pub record Copied : Type 0 where
  pub status : ℕ
  pub io : Option Io
  pub memory : Memory

unfoldable pub flume_read_to_hbm_async : Client → Block → Buffer → ℕ → Memory → Copied
flume_read_to_hbm_async c block dst dst_offset m =
    if (block.client != c.id)
      || ((dst.client != c.id) || not (validate_range dst dst_offset (length block.payload)))
    then record { status = Status.invalid_argument; io = none; memory = m }
    else if dst.type == BufferType.sim_hbm
    then (let at = dst.ptr + dst_offset in
        let m' = store m at block.payload in
        record {
          status = Status.ok;
          io = some (
              make_io Status.ok (length block.payload)
                (checksum32 (load m' at (length block.payload))) comm_to_hbm);
          memory = m';
        })
    else if is_real_hccl_buffer_type dst.type
    then record {
      status = Status.ok;
      io = some (make_io Status.unsupported 0 0 no_hbm_path);
      memory = m;
    }
    else record { status = Status.invalid_argument; io = none; memory = m }

unfoldable pub flume_hbm_copy_async : Buffer → ℕ → Buffer → ℕ → ℕ → Memory → Copied
flume_hbm_copy_async dst dst_offset src src_offset len m =
    if ltb dst.len dst_offset
      || (ltb (dst.len - dst_offset) len
          || (ltb src.len src_offset || ltb (src.len - src_offset) len))
    then record { status = Status.invalid_argument; io = none; memory = m }
    else if is_sim_buffer_type dst.type && is_sim_buffer_type src.type
    then (let m' = store m (dst.ptr + dst_offset) (load m (src.ptr + src_offset) len) in
        record {
          status = Status.ok;
          io =
              some (make_io Status.ok len (checksum32 (load m' (dst.ptr + dst_offset) len)) silent);
          memory = m';
        })
    else record {
      status = Status.ok;
      io = some (make_io Status.unsupported 0 0 not_in_build);
      memory = m;
    }

pub record Window : Type 0 where
  pub client : ℕ
  pub buffer : Buffer
  pub offset : ℕ
  pub len : ℕ
  pub sim_lkey : ℕ
  pub sim_rkey : ℕ
  pub plan_ref_count : ℕ

unfoldable pub flume_register_storage_target_memory :
    Client → Buffer → ℕ → ℕ → Store → ℕ × Option Window × Store
flume_register_storage_target_memory c buffer offset len s =
    if len == 0
    then (Status.invalid_argument, none, s)
    else if (buffer.client != c.id)
        || ((buffer.type != BufferType.sim_hbm) || not (validate_range buffer offset len))
    then (Status.invalid_argument, none, s)
    else let sim_lkey = bit_xor (offset * 2 ^ 32 % 2 ^ 64) len in
      (
        Status.ok,
        some (record {
          client = c.id;
          buffer = buffer;
          offset = offset;
          len = len;
          sim_lkey = sim_lkey;
          sim_rkey = bit_xor sim_lkey 0x5f1d000000000001;
          plan_ref_count = 0;
        }),
        retain_pending_buffer buffer s,
      )

unfoldable pub flume_storage_target_window_release : Window → Store → ℕ × Store
flume_storage_target_window_release w s =
    if w.plan_ref_count != 0
    then (Status.invalid_argument, s)
    else (Status.ok, release_pending_buffer w.buffer s)
