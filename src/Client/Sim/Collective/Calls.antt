-- ===== src/Client/Sim/Collective/Calls.antt =====
-- src/core/client.cc: the calls that submit a rank's part of a collective, with all their checks.
use flume_ascend_host_bypass.Prelude.{
  ℕ, ◌+◌, ◌%◌, ◌^◌, Bool, true, not, ◌&&◌, ◌||◌, Option, none, some, length, ◌==◌, ◌!=◌,
  if◌then◌else◌,
}
use flume_ascend_host_bypass.Client.Status
use flume_ascend_host_bypass.Client.ReduceOp
use flume_ascend_host_bypass.Client.Sizes.{checked_bytes, checked_mul}
use flume_ascend_host_bypass.Client.Buffer.{
  Buffer, validate_range, is_sim_buffer_type, is_real_hccl_buffer_type, is_collective_buffer_type,
}
use flume_ascend_host_bypass.Client.Io.{
  collective, Detail, needs_sim_comm, needs_sim_buffers, needs_one_kind, needs_comm, not_in_build,
  make_io,
}
use flume_ascend_host_bypass.Client.Sim.{Client, new_io}
use flume_ascend_host_bypass.Client.Sim.Reduce.{Machine}
use flume_ascend_host_bypass.Client.Sim.Collective.{
  Kind, all_reduce, all_gather, Share, Collectives, share,
}

-- What a call asks for.
pub record Asked : Type 0 where
  pub dst : Buffer
  pub dst_offset : ℕ
  pub src : Buffer
  pub src_offset : ℕ
  pub count : ℕ
  pub data_type : ℕ
  pub op : ℕ

-- The return value, the request that *out is set to, and what is left behind.
pub record Submitted : Type 0 where
  pub status : ℕ
  pub io : Option ℕ
  pub client : Client
  pub collectives : Collectives

returns : ℕ → Client → Collectives → Submitted
returns status c s = record { status = status; io = none; client = c; collectives = s }

-- A request that has failed already.
returns_io : ℕ → Detail → Client → Collectives → Submitted
returns_io status error c s = record {
  status = Status.ok;
  io = some (length s.store.ios);
  client = c;
  collectives = record s { store = new_io (make_io status 0 0 error) s.store };
}

unfoldable pub is_supported_reduce_op : ℕ → Bool
is_supported_reduce_op op =
    (op == ReduceOp.sum)
    || ((op == ReduceOp.prod) || ((op == ReduceOp.max_of) || (op == ReduceOp.min_of)))

op_fits : Kind → ℕ → Bool
unfolding is_supported_reduce_op
op_fits all_reduce op = is_supported_reduce_op op
op_fits all_gather op = true

output_bytes_of : Kind → ℕ → ℕ → Option ℕ
unfolding checked_mul
output_bytes_of all_reduce input_bytes rank_size = some input_bytes
output_bytes_of all_gather input_bytes rank_size = checked_mul input_bytes rank_size

sim_seq : Kind → Client → ℕ
sim_seq all_reduce c = c.sim_allreduce_seq
sim_seq all_gather c = c.sim_allgather_seq

next_seq : Kind → Client → Client
next_seq all_reduce c = record c { sim_allreduce_seq = (c.sim_allreduce_seq + 1) % 2 ^ 64 }
next_seq all_gather c = record c { sim_allgather_seq = (c.sim_allgather_seq + 1) % 2 ^ 64 }

share_of : Kind → Asked → Client → ℕ → ℕ → Share
unfolding sim_seq
share_of kind q c input_bytes output_bytes = record {
  key = record {
    comm_name = c.sim_comm_name;
    rank_size = c.rank_size;
    seq = sim_seq kind c;
    kind = kind;
  };
  rank = c.rank;
  dst = q.dst;
  dst_offset = q.dst_offset;
  src = q.src;
  src_offset = q.src_offset;
  count = q.count;
  data_type = q.data_type;
  reduce_op = q.op;
  input_bytes = input_bytes;
  output_bytes = output_bytes;
}

ranges_checked : Machine → Kind → Asked → Client → Collectives → ℕ → Option ℕ → Submitted
unfolding returns returns_io share_of next_seq
ranges_checked machine kind q c s input_bytes none = returns Status.invalid_argument c s
ranges_checked machine kind q c s input_bytes (some output_bytes) =
    if not (validate_range q.src q.src_offset input_bytes)
      || not (validate_range q.dst q.dst_offset output_bytes)
    then returns Status.invalid_argument c s
    else if not (is_sim_buffer_type q.src.type) || not (is_sim_buffer_type q.dst.type)
    then returns_io Status.unsupported needs_sim_buffers c s
    else record {
      status = Status.ok;
      io = some (length s.store.ios);
      client = next_seq kind c;
      collectives = share machine (share_of kind q c input_bytes output_bytes) s;
    }

sized : Machine → Kind → Asked → Client → Collectives → Option ℕ → Submitted
unfolding returns ranges_checked output_bytes_of
sized machine kind q c s none = returns Status.invalid_argument c s
sized machine kind q c s (some input_bytes) =
    ranges_checked machine kind q c s input_bytes (output_bytes_of kind input_bytes c.rank_size)

unfoldable pub submit_sim_collective : Machine → Kind → Asked → Client → Collectives → Submitted
unfolding returns returns_io op_fits sized
submit_sim_collective machine kind q c s =
    if not c.sim_comm_attached || (c.rank_size == 0)
    then returns_io Status.unsupported (needs_sim_comm collective) c s
    else if not (op_fits kind q.op)
    then returns Status.invalid_argument c s
    else sized machine kind q c s (checked_bytes q.count q.data_type)

-- The checks on buffers that both calls share, behind those on ranges.
by_buffers : Machine → Kind → Asked → Client → Collectives → Submitted
unfolding returns returns_io
by_buffers machine kind q c s =
    if (q.src.client != c.id)
      || ((q.dst.client != c.id)
          || (not (is_collective_buffer_type q.src.type)
              || not (is_collective_buffer_type q.dst.type)))
    then returns Status.invalid_argument c s
    else if is_sim_buffer_type q.src.type && is_sim_buffer_type q.dst.type
    then submit_sim_collective machine kind q c s
    else if not (is_real_hccl_buffer_type q.src.type && is_real_hccl_buffer_type q.dst.type)
    then returns_io Status.unsupported needs_one_kind c s
    else returns_io Status.unsupported not_in_build c s

reduce_sized : Machine → Asked → Client → Collectives → Option ℕ → Submitted
unfolding returns by_buffers
reduce_sized machine q c s none = returns Status.invalid_argument c s
reduce_sized machine q c s (some bytes) =
    if not (validate_range q.src q.src_offset bytes)
      || not (validate_range q.dst q.dst_offset bytes)
    then returns Status.invalid_argument c s
    else by_buffers machine all_reduce q c s

unfoldable pub flume_allreduce_async : Machine → Asked → Client → Collectives → Submitted
unfolding reduce_sized
flume_allreduce_async machine q c s = reduce_sized machine q c s (checked_bytes q.count q.data_type)

gather_received : Machine → Asked → Client → Collectives → ℕ → Option ℕ → Submitted
unfolding returns by_buffers
gather_received machine q c s send_bytes none = returns Status.invalid_argument c s
gather_received machine q c s send_bytes (some recv_bytes) =
    if not (validate_range q.src q.src_offset send_bytes)
      || not (validate_range q.dst q.dst_offset recv_bytes)
    then returns Status.invalid_argument c s
    else by_buffers machine all_gather q c s

gather_sized : Machine → Asked → Client → Collectives → Option ℕ → Submitted
unfolding returns returns_io gather_received
gather_sized machine q c s none = returns Status.invalid_argument c s
gather_sized machine q c s (some send_bytes) =
    if c.rank_size == 0
    then returns_io Status.unsupported needs_comm c s
    else gather_received machine q c s send_bytes (checked_mul send_bytes c.rank_size)

-- The operator is FLUME_REDUCE_SUM.
unfoldable pub flume_allgather_async : Machine → Asked → Client → Collectives → Submitted
unfolding gather_sized
flume_allgather_async machine q c s =
    gather_sized machine (record q { op = ReduceOp.sum }) c s (checked_bytes q.count q.data_type)
