-- ===== src/Client/Storage/Direct/Post.antt =====
-- What the direct path submits.
use flume_ascend_host_bypass.Prelude.{
  ℕ, ◌^◌, ◌≤◌, ◌<◌, ◌≡◌, ◌≢◌, refl, true, false, not, ◌||◌, some, length, leb, ◌==◌, ◌!=◌, arith,
}
use flume_ascend_host_bypass.Client.Status
use flume_ascend_host_bypass.Client.BufferType
use flume_ascend_host_bypass.Client.DataType
use flume_ascend_host_bypass.Client.Sizes.{checked_bytes, data_type_bytes}
use flume_ascend_host_bypass.Client.Memory.{store}
use flume_ascend_host_bypass.Client.Buffer.{validate_range}
use flume_ascend_host_bypass.Client.Io.{hcomm_payload, make_pending_io, retain_pending_io}
use flume_ascend_host_bypass.Client.Sim.{Client, new_io}
use flume_ascend_host_bypass.Client.Sim.P2p.{send, post}
use flume_ascend_host_bypass.Client.Sim.Calls.{
  World, Asked, p2p_key, payload_seq, next_payload_seq, into_payloads, asked_post,
  submit_sim_hcomm_payload, sized_payload,
}
use flume_ascend_host_bypass.Client.Storage.{Block}
use flume_ascend_host_bypass.Client.Storage.Plan.{Plan, sim_direct, source_send}
use flume_ascend_host_bypass.Client.Storage.Direct.{
  checked_payload, flume_hcomm_payload_async, wrapped, send_block, read_direct,
}

-- A call that passes every check.
pub record IsAccepted (q : Asked) (c : Client) (bytes : ℕ) : Type 0 where
  pub attached : c.sim_comm_attached ≡ true
  pub pair : c.rank_size ≡ 2
  pub peer_known : q.peer_rank < 2
  pub peer_other : q.peer_rank ≢ c.rank
  pub sized : checked_bytes q.count q.data_type ≡ some bytes
  pub in_range : validate_range q.buffer q.offset bytes ≡ true
  pub own : q.buffer.client ≡ c.id
  pub simulated : q.buffer.type ≡ BufferType.sim_hbm

-- A call that passes every check is posted under the client's next number, and returns the request
-- behind all that there are.
flume_hcomm_payload_async-IsAccepted :
    (q : Asked) (c : Client) (w : World) {bytes : ℕ}
    → IsAccepted q c bytes
    → flume_hcomm_payload_async q c w ≡ record {
      status = Status.ok;
      io = some (length w.store.ios);
      client = next_payload_seq q.role c;
      world = into_payloads w (
          post
            (asked_post hcomm_payload q (p2p_key q.role c q.peer_rank (payload_seq q.role c)) bytes)
            (record { pendings = w.hcomm_payloads; store = w.store }));
    }
unfolding flume_hcomm_payload_async checked_payload submit_sim_hcomm_payload sized_payload
flume_hcomm_payload_async-IsAccepted q c w {bytes} h =
    let own : (q.buffer.client != c.id) ≡ false = ground (arith, h.own) in
    let joined : (not c.sim_comm_attached || (c.rank_size == 0)) ≡ false =
      ground (arith, h.attached, h.pair) in
    let pair : (c.rank_size != 2) ≡ false = ground (arith, h.pair) in
    let known : leb c.rank_size q.peer_rank ≡ false = ground (arith, h.peer_known, h.pair) in
    let other : (q.peer_rank == c.rank) ≡ false = ground (arith, h.peer_other) in
    let kind : (q.buffer.type == BufferType.sim_hbm) ≡ true = ground (arith, h.simulated) in
    let not_other : (q.buffer.type != BufferType.sim_hbm) ≡ false = ground (arith, h.simulated) in
    rw
      (
        h.sized, checked_payload, h.in_range, own, kind, submit_sim_hcomm_payload, joined, pair,
        known, other, h.sized, sized_payload, h.in_range, own, not_other,
      )
      refl

checked_bytes-uint8 : (n : ℕ) → 1 ≤ n → n < 2 ^ 64 → checked_bytes n DataType.uint8 ≡ some n
unfolding checked_bytes data_type_bytes
checked_bytes-uint8 n one fits = ground arith

-- The call that the source of a plan makes.
abbrev sends : ℕ → ℕ → Plan → Client → Block → Asked
sends temp base plan c block = record {
  role = send;
  buffer = record {
    handle = temp;
    client = c.id;
    ptr = base;
    len = length block.payload;
    type = BufferType.sim_hbm;
  };
  offset = 0;
  count = plan.bytes;
  data_type = DataType.uint8;
  peer_rank = plan.peer_rank;
}

-- The source of a direct plan, attached to a communicator of two ranks, submits the first bytes of
-- its block, as many as the plan is for, as a send to the peer; it returns FLUME_OK and a pending
-- request of its own behind that of the send.
read_direct-source :
    (temp base : ℕ) (plan : Plan) (c : Client) (w : World) (block : Block)
    → plan.client ≡ c.id
    → plan.path ≡ sim_direct
    → plan.role ≡ source_send
    → plan.block ≡ some block
    → c.sim_comm_attached ≡ true
    → c.rank_size ≡ 2
    → plan.peer_rank < 2
    → plan.peer_rank ≢ c.rank
    → 1 ≤ plan.bytes
    → plan.bytes ≤ length block.payload
    → length block.payload < 2 ^ 64
    → let s =
        post
          (asked_post hcomm_payload
            (sends temp base plan c block)
            (p2p_key send c plan.peer_rank c.sim_hcomm_payload_send_seq)
            plan.bytes)
          (record {
            pendings = w.hcomm_payloads;
            store = record w.store { memory = store w.store.memory base block.payload };
          }) in
      read_direct temp base plan c w ≡ record {
        status = Status.ok;
        io = some (length s.store.ios);
        client = next_payload_seq send c;
        world = record w {
          hcomm_payloads = s.pendings;
          store = new_io (retain_pending_io make_pending_io) s.store;
        };
      }
unfolding read_direct send_block wrapped
read_direct-source temp base plan c w block own path role from attached pair known other one fits
      size =
    let q = sends temp base plan c block in
    let accepted : IsAccepted q c plan.bytes = record {
      attached = attached;
      pair = pair;
      peer_known = known;
      peer_other = other;
      sized = checked_bytes-uint8 plan.bytes one (omega (arith, fits, size));
      in_range = unfold validate_range in ground (arith, fits);
      own = refl;
      simulated = refl;
    } in
    let mine : (plan.client != c.id) ≡ false = ground (arith, own) in
    let on_path : (plan.path != sim_direct) ≡ false = ground (arith, path) in
    let source : (plan.role == source_send) ≡ true = ground (arith, role) in
    rw
      (mine, on_path, source, from, send_block, flume_hcomm_payload_async-IsAccepted q c _ accepted)
      refl
