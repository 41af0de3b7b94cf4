-- ===== src/Client/Sim/Calls.antt =====
-- src/core/client.cc: the calls that submit a send or a receive, with all their checks.
pub mod Pair
pub mod Order
use flume_ascend_host_bypass.Prelude.{
  ℕ, ◌+◌, ◌%◌, ◌^◌, ◌≡◌, ◌↔◌, refl, ap, sym, Bool, true, not, ◌&&◌, ◌||◌, Option, none, some,
  length, leb, ◌==◌, ◌!=◌, if◌then◌else◌, arith,
}
use flume_ascend_host_bypass.Prelude.Text.{same_bytes, same_bytes→eq, same_bytes_refl}
use flume_ascend_host_bypass.Client.Status
use flume_ascend_host_bypass.Client.BufferType
use flume_ascend_host_bypass.Client.Sizes.{checked_bytes}
use flume_ascend_host_bypass.Client.Buffer.{
  Buffer, validate_range, is_sim_buffer_type, is_real_hccl_buffer_type,
}
use flume_ascend_host_bypass.Client.Io.{
  Service, p2p, hcomm_payload, Detail, needs_sim_comm, pair_only, not_in_build, make_io,
}
use flume_ascend_host_bypass.Client.Sim.{Client, Store, new_io}
use flume_ascend_host_bypass.Client.Sim.P2p.{
  P2pKey, same_key, Pendings, Sim, Role, send, recv, Post, post,
}

-- The two maps of the process, and the store.
pub record World : Type 0 where
  pub p2ps : Pendings
  pub hcomm_payloads : Pendings
  pub store : Store

-- The return value, the request that *out is set to, and what is left behind.
pub record Submitted : Type 0 where
  pub status : ℕ
  pub io : Option ℕ
  pub client : Client
  pub world : World

unfoldable pub returns : ℕ → Client → World → Submitted
returns status c w = record { status = status; io = none; client = c; world = w }

-- A request that has failed already.
unfoldable pub returns_io : ℕ → Detail → Client → World → Submitted
returns_io status error c w = record {
  status = Status.ok;
  io = some (length w.store.ios);
  client = c;
  world = record w { store = new_io (make_io status 0 0 error) w.store };
}

unfoldable pub p2p_key : Role → Client → ℕ → ℕ → P2pKey
p2p_key send c peer_rank seq = record {
  comm_name = c.sim_comm_name;
  rank_size = c.rank_size;
  src_rank = c.rank;
  dst_rank = peer_rank;
  seq = seq;
}
p2p_key recv c peer_rank seq = record {
  comm_name = c.sim_comm_name;
  rank_size = c.rank_size;
  src_rank = peer_rank;
  dst_rank = c.rank;
  seq = seq;
}

abbrev pub p2p_seq : Role → Client → ℕ
p2p_seq send c = c.sim_p2p_send_seq
p2p_seq recv c = c.sim_p2p_recv_seq

unfoldable pub next_p2p_seq : Role → Client → Client
next_p2p_seq send c = record c { sim_p2p_send_seq = (c.sim_p2p_send_seq + 1) % 2 ^ 64 }
next_p2p_seq recv c = record c { sim_p2p_recv_seq = (c.sim_p2p_recv_seq + 1) % 2 ^ 64 }

abbrev pub payload_seq : Role → Client → ℕ
payload_seq send c = c.sim_hcomm_payload_send_seq
payload_seq recv c = c.sim_hcomm_payload_recv_seq

unfoldable pub next_payload_seq : Role → Client → Client
next_payload_seq send c = record c {
  sim_hcomm_payload_send_seq = (c.sim_hcomm_payload_send_seq + 1) % 2 ^ 64;
}
next_payload_seq recv c = record c {
  sim_hcomm_payload_recv_seq = (c.sim_hcomm_payload_recv_seq + 1) % 2 ^ 64;
}

abbrev pub into_p2ps : World → Sim → World
into_p2ps w s = record w { p2ps = s.pendings; store = s.store }

abbrev pub into_payloads : World → Sim → World
into_payloads w s = record w { hcomm_payloads = s.pendings; store = s.store }

-- What a call asks for.
pub record Asked : Type 0 where
  pub role : Role
  pub buffer : Buffer
  pub offset : ℕ
  pub count : ℕ
  pub data_type : ℕ
  pub peer_rank : ℕ

unfoldable pub asked_post : Service → Asked → P2pKey → ℕ → Post
asked_post service q key bytes = record {
  service = service;
  role = q.role;
  key = key;
  buffer = q.buffer;
  offset = q.offset;
  count = q.count;
  data_type = q.data_type;
  bytes = bytes;
}

sized_p2p : Asked → Client → World → Option ℕ → Submitted
unfolding returns next_p2p_seq p2p_key asked_post
sized_p2p q c w none = returns Status.invalid_argument c w
sized_p2p q c w (some bytes) =
    if not (validate_range q.buffer q.offset bytes)
    then returns Status.invalid_argument c w
    else if (q.buffer.client != c.id) || not (is_sim_buffer_type q.buffer.type)
    then returns Status.invalid_argument c w
    else record {
      status = Status.ok;
      io = some (length w.store.ios);
      client = next_p2p_seq q.role c;
      world = into_p2ps w (
          post (asked_post p2p q (p2p_key q.role c q.peer_rank (p2p_seq q.role c)) bytes)
            (record { pendings = w.p2ps; store = w.store }));
    }

unfoldable pub submit_sim_p2p : Asked → Client → World → Submitted
unfolding returns returns_io sized_p2p
submit_sim_p2p q c w =
    if not c.sim_comm_attached || (c.rank_size == 0)
    then returns_io Status.unsupported (needs_sim_comm p2p) c w
    else if leb c.rank_size q.peer_rank || (q.peer_rank == c.rank)
    then returns Status.invalid_argument c w
    else sized_p2p q c w (checked_bytes q.count q.data_type)

unfoldable pub sized_payload : Asked → Client → World → Option ℕ → Submitted
unfolding returns next_payload_seq p2p_key asked_post
sized_payload q c w none = returns Status.invalid_argument c w
sized_payload q c w (some bytes) =
    if not (validate_range q.buffer q.offset bytes)
    then returns Status.invalid_argument c w
    else if (q.buffer.client != c.id) || (q.buffer.type != BufferType.sim_hbm)
    then returns Status.invalid_argument c w
    else record {
      status = Status.ok;
      io = some (length w.store.ios);
      client = next_payload_seq q.role c;
      world = into_payloads w (
          post
            (asked_post hcomm_payload q (p2p_key q.role c q.peer_rank (payload_seq q.role c)) bytes)
            (record { pendings = w.hcomm_payloads; store = w.store }));
    }

unfoldable pub submit_sim_hcomm_payload : Asked → Client → World → Submitted
unfolding returns returns_io sized_payload
submit_sim_hcomm_payload q c w =
    if not c.sim_comm_attached || (c.rank_size == 0)
    then returns_io Status.unsupported (needs_sim_comm hcomm_payload) c w
    else if c.rank_size != 2
    then returns_io Status.unsupported pair_only c w
    else if leb c.rank_size q.peer_rank || (q.peer_rank == c.rank)
    then returns Status.invalid_argument c w
    else sized_payload q c w (checked_bytes q.count q.data_type)

checked_p2p : Asked → Client → World → Option ℕ → Submitted
unfolding returns returns_io
checked_p2p q c w none = returns Status.invalid_argument c w
checked_p2p q c w (some bytes) =
    if not (validate_range q.buffer q.offset bytes) || (q.buffer.client != c.id)
    then returns Status.invalid_argument c w
    else if is_sim_buffer_type q.buffer.type
    then submit_sim_p2p q c w
    else if not (is_real_hccl_buffer_type q.buffer.type)
    then returns Status.invalid_argument c w
    else returns_io Status.unsupported not_in_build c w

unfoldable pub flume_p2p_async : Asked → Client → World → Submitted
unfolding checked_p2p
flume_p2p_async q c w = checked_p2p q c w (checked_bytes q.count q.data_type)
