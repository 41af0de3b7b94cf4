-- ===== src/Client/Sim/P2p.antt =====
-- src/core/client.cc: sends and receives between two ranks of a simulated communicator. The two
-- services, SubmitSimP2p and SubmitSimHcommPayload, have the same rounds behind their own checks:
-- they differ in their maps, their sequence numbers and their texts. `post` is what both do with a
-- submission that has passed the checks.
pub mod Spec
pub mod Keys
pub mod Market
pub mod Refine
pub mod Delivery
pub mod Counts
pub mod Runs
use flume_ascend_host_bypass.Prelude.{
  ℕ, ◌+◌, ◌%◌, ◌^◌, Bool, true, false, not, ◌&&◌, ◌||◌, Option, none, some, List, [], ◌∷◌, length,
  take, leb, ◌==◌, ◌!=◌, if◌then◌else◌,
}
use flume_ascend_host_bypass.Prelude.Text.{same_bytes}
use flume_ascend_host_bypass.Protocol.Checksum.{checksum32}
use flume_ascend_host_bypass.Client.Status
use flume_ascend_host_bypass.Client.DataType
use flume_ascend_host_bypass.Client.BufferType
use flume_ascend_host_bypass.Client.Sizes.{checked_bytes}
use flume_ascend_host_bypass.Client.Memory.{load, store}
use flume_ascend_host_bypass.Client.Buffer.{
  Buffer, validate_range, is_sim_buffer_type, is_real_hccl_buffer_type,
}
use flume_ascend_host_bypass.Client.Io.{
  Service, p2p, hcomm_payload, Detail, silent, needs_sim_comm, parameters_differ, duplicate_send,
  duplicate_recv, pair_only, not_in_build, make_io, make_pending_io, complete_io, retain_pending_io,
  complete_pending_io,
}
use flume_ascend_host_bypass.Client.Table.{find, erase}
use flume_ascend_host_bypass.Client.Sim.{
  Client, Store, retain_pending_buffer, release_pending_buffer, update_io, new_io,
}

pub record P2pKey : Type 0 where
  pub comm_name : List ℕ
  pub rank_size : ℕ
  pub src_rank : ℕ
  pub dst_rank : ℕ
  pub seq : ℕ

-- Neither key is less than the other.
unfoldable pub same_key : P2pKey → P2pKey → Bool
same_key a b =
    same_bytes a.comm_name b.comm_name
    && ((a.rank_size == b.rank_size)
        && ((a.src_rank == b.src_rank) && ((a.dst_rank == b.dst_rank) && (a.seq == b.seq))))

pub record PendingP2p : Type 0 where
  pub metadata_set : Bool
  pub count : ℕ
  pub data_type : ℕ
  pub bytes : ℕ
  pub has_send : Bool
  pub has_recv : Bool
  pub payload : List ℕ
  pub dst : Option Buffer
  pub dst_offset : ℕ
  pub send_io : Option ℕ
  pub recv_io : Option ℕ

abbrev pub Pendings : Type 0
Pendings = List (P2pKey × PendingP2p)

abbrev pub no_pending : PendingP2p
no_pending = record {
  metadata_set = false;
  count = 0;
  data_type = DataType.int8;
  bytes = 0;
  has_send = false;
  has_recv = false;
  payload = [];
  dst = none;
  dst_offset = 0;
  send_io = none;
  recv_io = none;
}

unfoldable pub pending_matches : PendingP2p → ℕ → ℕ → ℕ → Bool
pending_matches p count data_type bytes =
    not p.metadata_set || ((p.count == count) && ((p.data_type == data_type) && (p.bytes == bytes)))

unfoldable pub maybe_set_metadata : ℕ → ℕ → ℕ → PendingP2p → PendingP2p
maybe_set_metadata count data_type bytes p =
    if p.metadata_set
    then p
    else record p { metadata_set = true; count = count; data_type = data_type; bytes = bytes }

complete_if : Option ℕ → ℕ → ℕ → ℕ → Detail → Store → Store
complete_if none status bytes checksum error s = s
complete_if (some i) status bytes checksum error s =
    update_io i (complete_pending_io status bytes checksum error) s

release_if : Bool → Option Buffer → Store → Store
release_if has_recv none s = s
release_if has_recv (some b) s = if has_recv then release_pending_buffer b s else s

unfoldable pub fail_pending : ℕ → Detail → PendingP2p → Store → Store
unfolding complete_if release_if
fail_pending status error p s =
    let s = release_if p.has_recv p.dst s in
    let s = complete_if p.send_io status 0 0 error s in complete_if p.recv_io status 0 0 error s

-- The source calls this with a send and a receive.
complete_into : Option Buffer → PendingP2p → Store → Store
unfolding complete_if
complete_into none p s = s
complete_into (some dst) p s =
    let at = dst.ptr + p.dst_offset in
    let s = record s { memory = store s.memory at (take p.bytes p.payload) } in
    let checksum = checksum32 (load s.memory at p.bytes) in
    let s = release_pending_buffer dst s in
    let s = complete_if p.recv_io Status.ok p.bytes checksum silent s in
    complete_if p.send_io Status.ok p.bytes checksum silent s

unfoldable pub complete_pending : PendingP2p → Store → Store
unfolding complete_into
complete_pending p s = complete_into p.dst p s

-- A map of submissions that wait, and the store.
pub record Sim : Type 0 where
  pub pendings : Pendings
  pub store : Store

pub data Role : Type 0 where
  send : Role
  recv : Role

-- A submission that has passed the checks.
pub record Post : Type 0 where
  pub service : Service
  pub role : Role
  pub key : P2pKey
  pub buffer : Buffer
  pub offset : ℕ
  pub count : ℕ
  pub data_type : ℕ
  pub bytes : ℕ

refuse : Detail → Post → ℕ → PendingP2p → Sim → Sim
unfolding fail_pending
refuse error q io p s = record {
  pendings = erase same_key q.key s.pendings;
  store =
      update_io io (complete_io Status.invalid_argument 0 0 error)
        (fail_pending Status.invalid_argument error p s.store);
}

finish : Post → PendingP2p → Sim → Sim
unfolding complete_pending
finish q p s =
    if p.has_send && p.has_recv
    then record { pendings = erase same_key q.key s.pendings; store = complete_pending p s.store }
    else record s { pendings = (q.key, p) ∷ erase same_key q.key s.pendings }

arrive : Role → Post → List ℕ → ℕ → PendingP2p → Sim → Sim
unfolding refuse finish
arrive send q payload io p s =
    if p.has_send
    then refuse (duplicate_send q.service) q io p s
    else finish q (record p { has_send = true; payload = payload; send_io = some io })
        (record s { store = update_io io retain_pending_io s.store })
arrive recv q payload io p s =
    if p.has_recv
    then refuse (duplicate_recv q.service) q io p s
    else finish q
        (record p {
          has_recv = true;
          dst = some q.buffer;
          dst_offset = q.offset;
          recv_io = some io;
        })
        (record s {
          store = update_io io retain_pending_io (retain_pending_buffer q.buffer s.store);
        })

meet : Post → List ℕ → ℕ → Option PendingP2p → Sim → Sim
unfolding refuse arrive
meet q payload io none s =
    arrive q.role q payload io (maybe_set_metadata q.count q.data_type q.bytes no_pending) s
meet q payload io (some p) s =
    if not (pending_matches p q.count q.data_type q.bytes)
    then refuse (parameters_differ q.service) q io p s
    else arrive q.role q payload io (maybe_set_metadata q.count q.data_type q.bytes p) s

sent_payload : Role → Post → Store → List ℕ
sent_payload send q s = load s.memory (q.buffer.ptr + q.offset) q.bytes
sent_payload recv q s = []

-- The request of the submission is the one behind all that there are.
unfoldable pub post : Post → Sim → Sim
unfolding meet sent_payload
post q s =
    meet q (sent_payload q.role q s.store) (length s.store.ios) (find same_key q.key s.pendings)
      (record s { store = new_io make_pending_io s.store })
