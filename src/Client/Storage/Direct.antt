-- ===== src/Client/Storage/Direct.antt =====
-- src/core/client.cc: flume_read_storage_to_hbm_async on the direct path of the simulation, and the
-- calls flume_hcomm_payload_send_ex and flume_hcomm_payload_recv_ex that it makes.
pub mod Post
use flume_ascend_host_bypass.Prelude.{
  ℕ, not, ◌||◌, Option, none, some, length, ◌==◌, ◌!=◌, if◌then◌else◌,
}
use flume_ascend_host_bypass.Client.Status
use flume_ascend_host_bypass.Client.BufferType
use flume_ascend_host_bypass.Client.DataType
use flume_ascend_host_bypass.Client.Sizes.{checked_bytes}
use flume_ascend_host_bypass.Client.Memory.{store}
use flume_ascend_host_bypass.Client.Buffer.{Buffer, validate_range, is_real_hccl_buffer_type}
use flume_ascend_host_bypass.Client.Io.{
  Io, direct, needs_hccl_comm, no_path, make_pending_io, retain_pending_io, complete_pending_io,
}
use flume_ascend_host_bypass.Client.Sim.{Client, Store, update_io, new_io}
use flume_ascend_host_bypass.Client.Sim.P2p.{send, recv}
use flume_ascend_host_bypass.Client.Sim.Release.{flume_io_release}
use flume_ascend_host_bypass.Client.Sim.Calls.{
  World, Submitted, Asked, returns, returns_io, submit_sim_hcomm_payload,
}
use flume_ascend_host_bypass.Client.Storage.{Block}
use flume_ascend_host_bypass.Client.Storage.Plan.{Plan, sim_direct, source_send, target_recv}

unfoldable pub checked_payload : Asked → Client → World → Option ℕ → Submitted
unfolding returns returns_io
checked_payload q c w none = returns Status.invalid_argument c w
checked_payload q c w (some bytes) =
    if not (validate_range q.buffer q.offset bytes) || (q.buffer.client != c.id)
    then returns Status.invalid_argument c w
    else if q.buffer.type == BufferType.sim_hbm
    then submit_sim_hcomm_payload q c w
    else if not (is_real_hccl_buffer_type q.buffer.type)
    then returns Status.invalid_argument c w
    else returns_io Status.unsupported needs_hccl_comm c w

-- A send or a receive: no communicator of HCCL is attached in this build.
unfoldable pub flume_hcomm_payload_async : Asked → Client → World → Submitted
unfolding checked_payload
flume_hcomm_payload_async q c w = checked_payload q c w (checked_bytes q.count q.data_type)

-- A wrapper is left pending behind the inner request.
unfoldable pub wrapped : Submitted → Submitted
wrapped r = if r.status != Status.ok then record r { io = none } else record r {
  io = some (length r.world.store.ios);
  world = record r.world { store = new_io (retain_pending_io make_pending_io) r.world.store };
}

-- The payload of the block lies at an address, and a buffer on the stack has a handle.
unfoldable pub send_block : ℕ → ℕ → Plan → Client → World → Option Block → Submitted
unfolding returns wrapped
send_block temp base plan c w none = returns Status.invalid_argument c w
send_block temp base plan c w (some block) = wrapped (
    flume_hcomm_payload_async
      (record {
        role = send;
        buffer = record {
          handle = temp;
          client = c.id;
          ptr = base;
          len = length block.payload;
          type = BufferType.sim_hbm;
        };
        offset = 0;
        count = plan.bytes;
        data_type = DataType.uint8;
        peer_rank = plan.peer_rank;
      })
      c (record w { store = record w.store { memory = store w.store.memory base block.payload } }))

unfoldable pub receive_block : Plan → Client → World → Option Buffer → Submitted
unfolding returns wrapped
receive_block plan c w none = returns Status.invalid_argument c w
receive_block plan c w (some dst) = wrapped (
    flume_hcomm_payload_async
      (record {
        role = recv;
        buffer = dst;
        offset = plan.dst_offset;
        count = plan.bytes;
        data_type = DataType.uint8;
        peer_rank = plan.peer_rank;
      })
      c w)

-- A plan whose path is not host staging.
unfoldable pub read_direct : ℕ → ℕ → Plan → Client → World → Submitted
unfolding send_block receive_block returns returns_io
read_direct temp base plan c w =
    if plan.client != c.id
    then returns Status.invalid_argument c w
    else if plan.path != sim_direct
    then returns_io Status.unsupported no_path c w
    else if plan.role == source_send
    then send_block temp base plan c w plan.block
    else if plan.role == target_recv
    then receive_block plan c w plan.dst
    else returns Status.invalid_argument c w

-- What the detached thread does when the inner request is done.
unfoldable pub complete_direct : ℕ → ℕ → Io → Store → Store
complete_direct wrapper inner io s =
    update_io wrapper (complete_pending_io io.status io.bytes io.checksum (direct io.error))
      (flume_io_release inner s).1
