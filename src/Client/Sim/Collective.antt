-- ===== src/Client/Sim/Collective.antt =====
-- src/core/client.cc: all-reduce and all-gather among the ranks of a simulated communicator. The
-- five vectors that the source indexes by rank are one list: a rank's entry is there when it has
-- arrived. `share` is what SubmitSimCollective does with a submission that has passed its checks.
mod Tests
pub mod Keys
pub mod Arrivals
pub mod Joins
pub mod Gather
pub mod Outcome
pub mod Whole
pub mod Calls
use flume_ascend_host_bypass.Prelude.{
  ℕ, zero, suc, ◌+◌, ◌%◌, ◌^◌, Bool, true, false, not, ◌&&◌, ◌||◌, Option, none, some, List, [],
  ◌∷◌, ◌++◌, length, take, get_elem?, replicate, leb, ◌==◌, if◌then◌else◌,
}
use flume_ascend_host_bypass.Prelude.Text.{same_bytes}
use flume_ascend_host_bypass.Protocol.Checksum.{checksum32}
use flume_ascend_host_bypass.Client.Status
use flume_ascend_host_bypass.Client.Memory.{load, store}
use flume_ascend_host_bypass.Client.Buffer.{Buffer}
use flume_ascend_host_bypass.Client.Io.{
  collective, Detail, silent, parameters_differ, duplicate_rank, make_pending_io, complete_io,
  retain_pending_io, complete_pending_io,
}
use flume_ascend_host_bypass.Client.Table.{find, erase}
use flume_ascend_host_bypass.Client.Sim.{
  Store, retain_pending_buffer, release_pending_buffer, update_io, new_io,
}
use flume_ascend_host_bypass.Client.Sim.Reduce.{
  Machine, Reduction, output, refused, sim_reduce_payloads,
}

pub data Kind : Type 0 where
  all_reduce : Kind
  all_gather : Kind

unfoldable pub same_kind : Kind → Kind → Bool
same_kind all_reduce all_reduce = true
same_kind all_reduce all_gather = false
same_kind all_gather all_reduce = false
same_kind all_gather all_gather = true

pub record CollectiveKey : Type 0 where
  pub comm_name : List ℕ
  pub rank_size : ℕ
  pub seq : ℕ
  pub kind : Kind

-- Neither key is less than the other.
unfoldable pub same_collective : CollectiveKey → CollectiveKey → Bool
unfolding same_kind
same_collective a b =
    same_bytes a.comm_name b.comm_name
    && ((a.rank_size == b.rank_size) && ((a.seq == b.seq) && same_kind a.kind b.kind))

-- What a rank has brought: a payload, where the result goes, and a request.
pub record Arrival : Type 0 where
  pub payload : List ℕ
  pub dst : Buffer
  pub dst_offset : ℕ
  pub io : ℕ

pub record Pending : Type 0 where
  pub kind : Kind
  pub rank_size : ℕ
  pub count : ℕ
  pub data_type : ℕ
  pub reduce_op : ℕ
  pub input_bytes : ℕ
  pub output_bytes : ℕ
  pub arrivals : ℕ
  pub arrived : List (Option Arrival)

-- A submission that has passed the checks.
pub record Share : Type 0 where
  pub key : CollectiveKey
  pub rank : ℕ
  pub dst : Buffer
  pub dst_offset : ℕ
  pub src : Buffer
  pub src_offset : ℕ
  pub count : ℕ
  pub data_type : ℕ
  pub reduce_op : ℕ
  pub input_bytes : ℕ
  pub output_bytes : ℕ

unfoldable pub init_pending : Share → Pending
init_pending q = record {
  kind = q.key.kind;
  rank_size = q.key.rank_size;
  count = q.count;
  data_type = q.data_type;
  reduce_op = q.reduce_op;
  input_bytes = q.input_bytes;
  output_bytes = q.output_bytes;
  arrivals = 0;
  arrived = replicate q.key.rank_size none;
}

unfoldable pub pending_matches : Pending → Share → Bool
unfolding same_kind
pending_matches p q =
    same_kind p.kind q.key.kind
    && ((p.count == q.count)
        && ((p.data_type == q.data_type)
            && ((p.reduce_op == q.reduce_op)
                && ((p.input_bytes == q.input_bytes) && (p.output_bytes == q.output_bytes)))))

abbrev pub set_arrived : List (Option Arrival) → ℕ → Arrival → List (Option Arrival)
set_arrived [] rank a = []
set_arrived (x ∷ xs) zero a = some a ∷ xs
set_arrived (x ∷ xs) (suc rank) a = x ∷ set_arrived xs rank a

unfoldable pub fail_pending : ℕ → Detail → List (Option Arrival) → Store → Store
fail_pending status error [] s = s
fail_pending status error (none ∷ rest) s = fail_pending status error rest s
fail_pending status error (some a ∷ rest) s =
    fail_pending status error rest
      (update_io a.io (complete_pending_io status 0 0 error) (release_pending_buffer a.dst s))

-- The ranks that are there; the source runs over them when all are.
abbrev pub present : List (Option Arrival) → List Arrival
present [] = []
present (none ∷ rest) = present rest
present (some a ∷ rest) = a ∷ present rest

abbrev pub payloads : List Arrival → List (List ℕ)
payloads [] = []
payloads (a ∷ rest) = a.payload ∷ payloads rest

-- The output is copied to one rank after the other.
unfoldable pub hand_out : List ℕ → List Arrival → Store → Store
hand_out out [] s = s
hand_out out (a ∷ rest) s =
    let at = a.dst.ptr + a.dst_offset in
    let s = record s { memory = store s.memory at out } in
    let checksum = checksum32 (load s.memory at (length out)) in
    hand_out out rest (
      update_io a.io (complete_pending_io Status.ok (length out) checksum silent)
        (release_pending_buffer a.dst s))

-- The payloads follow each other, and fill the output.
unfoldable pub gathered : ℕ → List (List ℕ) → List ℕ
gathered input_bytes [] = []
gathered input_bytes (payload ∷ rest) = take input_bytes payload ++ gathered input_bytes rest

pub data Completion : Type 0 where
  completed : Store → Completion
  failed : Detail → Completion

unfoldable pub reduce_out : Reduction → List Arrival → Store → Completion
unfolding hand_out
reduce_out (output out) ranks s = completed (hand_out out ranks s)
reduce_out (refused error) ranks s = failed error

unfoldable pub complete_kind : Machine → Kind → Pending → Store → Completion
unfolding reduce_out hand_out gathered sim_reduce_payloads
complete_kind machine all_reduce p s =
    reduce_out
      (sim_reduce_payloads machine p.data_type p.reduce_op p.count (payloads (present p.arrived)))
      (present p.arrived) s
complete_kind machine all_gather p s =
    completed
      (hand_out (gathered p.input_bytes (payloads (present p.arrived))) (present p.arrived) s)

unfoldable pub complete_pending : Machine → Pending → Store → Completion
unfolding complete_kind
complete_pending machine p s = complete_kind machine p.kind p s

abbrev pub Pendings : Type 0
Pendings = List (CollectiveKey × Pending)

pub record Collectives : Type 0 where
  pub pendings : Pendings
  pub store : Store

refuse : Detail → Share → ℕ → Pending → Collectives → Collectives
unfolding fail_pending
refuse error q io p s = record {
  pendings = erase same_collective q.key s.pendings;
  store =
      update_io io (complete_io Status.invalid_argument 0 0 error)
        (fail_pending Status.invalid_argument error p.arrived s.store);
}

unfoldable pub after_completion : Pending → Completion → Store → Store
unfolding fail_pending
after_completion p (completed s') s = s'
after_completion p (failed error) s = fail_pending Status.unsupported error p.arrived s

unfoldable pub finish : Machine → Share → Pending → Collectives → Collectives
unfolding complete_pending after_completion
finish machine q p s =
    if p.arrivals == p.rank_size
    then record {
      pendings = erase same_collective q.key s.pendings;
      store = after_completion p (complete_pending machine p s.store) s.store;
    }
    else record s { pendings = (q.key, p) ∷ erase same_collective q.key s.pendings }

unfoldable pub arrive : Share → List ℕ → ℕ → Pending → Pending
arrive q payload io p = record p {
  arrivals = p.arrivals + 1;
  arrived =
      set_arrived p.arrived q.rank
        (record { payload = payload; dst = q.dst; dst_offset = q.dst_offset; io = io });
}

abbrev pub has_arrived : List (Option Arrival) → ℕ → Bool
has_arrived [] rank = false
has_arrived (none ∷ rest) zero = false
has_arrived (some a ∷ rest) zero = true
has_arrived (x ∷ rest) (suc rank) = has_arrived rest rank

unfoldable pub enter : Machine → Share → List ℕ → ℕ → Pending → Collectives → Collectives
unfolding refuse arrive finish
enter machine q payload io p s =
    if not (pending_matches p q)
    then refuse (parameters_differ collective) q io p s
    else if leb p.rank_size q.rank || has_arrived p.arrived q.rank
    then refuse duplicate_rank q io p s
    else finish machine q (arrive q payload io p)
        (record s { store = update_io io retain_pending_io (retain_pending_buffer q.dst s.store) })

abbrev pub pending_or : Option Pending → Share → Pending
pending_or none q = init_pending q
pending_or (some p) q = p

unfoldable pub share : Machine → Share → Collectives → Collectives
share machine q s =
    enter machine q (load s.store.memory (q.src.ptr + q.src_offset) q.input_bytes)
      (length s.store.ios) (pending_or (find same_collective q.key s.pendings) q)
      (record s { store = new_io make_pending_io s.store })
