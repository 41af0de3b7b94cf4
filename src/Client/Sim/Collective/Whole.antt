-- ===== src/Client/Sim/Collective/Whole.antt =====
-- All ranks of a communicator submit, in any order, and the collective ends.
use flume_ascend_host_bypass.Prelude.{
  ℕ, ◌+◌, ◌<◌, ◌≡◌, refl, subst, ap, sym, ◌∙◌, none, some, List, ◌∷◌, length, get_elem?, All, arith,
  All-map, Numbered, Numbered-map, take, drop, ◌*◌,
}
use flume_ascend_host_bypass.Client.Status
use flume_ascend_host_bypass.Client.Memory.{Memory, load}
use flume_ascend_host_bypass.Client.Table.{Distinct, find}
use flume_ascend_host_bypass.Client.Sim.{Store}
use flume_ascend_host_bypass.Client.Sim.Reduce.{
  Machine, Reduction, output, refused, sim_reduce_payloads,
}
use flume_ascend_host_bypass.Client.Sim.Collective.{
  all_reduce, all_gather, same_collective, Arrival, Pending, Share, init_pending, present, payloads,
  hand_out, gathered, complete_pending, complete_kind, reduce_out, Collectives, after_completion,
  pending_or,
}
use flume_ascend_host_bypass.Client.Sim.Collective.Arrivals.{
  has_arrived-none, init_pending-IsPending, present_all,
}
use flume_ascend_host_bypass.Client.Sim.Collective.Joins.{Joins}
use flume_ascend_host_bypass.Client.Sim.Collective.Gather.{
  Ended, Different, Coming, shares, shares-Ended, Stands,
}
use flume_ascend_host_bypass.Client.Sim.P2p.Delivery.{IsDone}
use flume_ascend_host_bypass.Client.Sim.Collective.Outcome.{
  Has, HasFailed, hand_out-IsDone, fail_pending-HasFailed, fail_pending_memory, length-gathered,
  gathered_slice,
}

-- What a rank has brought, under its number.
abbrev pub Brought : Memory → ℕ → List Arrival → ℕ → Share → Type 0
Brought m n ranks io q =
    (io < n)
    × (get_elem? ranks q.rank
        ≡ some (record {
          payload = load m (q.src.ptr + q.src_offset) q.input_bytes;
          dst = q.dst;
          dst_offset = q.dst_offset;
          io = io;
        }))

-- The ranks of a collective that has ended, in the order of their numbers.
pub record Collected (q : Share) (start : Store) (qs : List Share) (s : Collectives) : Type 0 where
  pub ranks : List Arrival
  pub before : Store
  pub number : length ranks ≡ q.key.rank_size
  pub memory_same : before.memory ≡ start.memory
  pub own : Numbered (Brought start.memory (length before.ios) ranks) (length start.ios) qs
  pub filled : All (λ a. length a.payload ≡ q.input_bytes) ranks
  pub freed : find same_collective q.key s.pendings ≡ none

-- The same terms, from a rank of the communicator.
pub record Alike (q x : Share) : Type 0 where
  pub key_same : x.key ≡ q.key
  pub count_same : x.count ≡ q.count
  pub type_same : x.data_type ≡ q.data_type
  pub op_same : x.reduce_op ≡ q.reduce_op
  pub input_same : x.input_bytes ≡ q.input_bytes
  pub output_same : x.output_bytes ≡ q.output_bytes
  pub rank_known : x.rank < q.key.rank_size

-- All ranks of a communicator, on the same terms, each once.
pub record IsWhole (q : Share) (qs : List Share) : Type 0 where
  pub alike : All (Alike q) (q ∷ qs)
  pub different : Different (q ∷ qs)
  pub number : length (q ∷ qs) ≡ q.key.rank_size

init_Alike : (q x : Share) → Alike q x → init_pending x ≡ init_pending q
unfolding init_pending
init_Alike q x a =
    rw (a.key_same, a.count_same, a.type_same, a.op_same, a.input_same, a.output_same) refl

Joins-init : (q x : Share) → Alike q x → Joins (init_pending q) q.key x
unfolding init_pending
Joins-init q x a = record {
  key_same = a.key_same;
  kind_same = refl;
  size_same = refl;
  count_same = sym a.count_same;
  type_same = sym a.type_same;
  op_same = sym a.op_same;
  input_same = sym a.input_same;
  output_same = sym a.output_same;
  rank_known = a.rank_known;
}

first_Coming :
    (q : Share) (qs : List Share) (s : Collectives)
    → IsWhole q qs
    → find same_collective q.key s.pendings ≡ none
    → Distinct same_collective s.pendings
    → Coming q.key (init_pending q) (q ∷ qs) s
unfolding init_pending
first_Coming q qs s w e d = record {
  known =
      All-map (q ∷ qs)
        (λ x a.
          ap (λ k. pending_or (find same_collective k s.pendings) x) a.key_same
          ∙ ap (λ o. pending_or o x) e
          ∙ init_Alike q x a)
        w.alike;
  joins = All-map (q ∷ qs) (Joins-init q) w.alike;
  missing = All-map (q ∷ qs) (λ x a. has_arrived-none q.key.rank_size x.rank) w.alike;
  different = w.different;
  number = omega (arith, w.number);
  distinct = d;
  formed = init_pending-IsPending q;
}

-- The completion on the terms of a submission.
all_gather_result :
    (machine : Machine) (full : Pending) (before : Store) (bytes : ℕ)
    → full.kind ≡ all_gather
    → full.input_bytes ≡ bytes
    → after_completion full (complete_pending machine full before) before
      ≡ hand_out (gathered bytes (payloads (present full.arrived))) (present full.arrived) before
unfolding after_completion complete_pending complete_kind
all_gather_result machine full before bytes k b = rw (k, complete_kind, b) refl

-- A reduction with an output leaves it with each rank, and every request ends with its size and
-- checksum; one that is refused leaves the memory, and every request fails.
abbrev pub Finishes : Reduction → List Arrival → Store → ℕ → List Share → Store → Type 0
Finishes (output out) ranks before first qs s =
    (s ≡ hand_out out ranks before) × Numbered (λ io x. Has (IsDone out) s.ios io) first qs
Finishes (refused error) ranks before first qs s =
    (s.memory ≡ before.memory)
    × Numbered (λ io x. Has (HasFailed Status.unsupported error) s.ios io) first qs

-- The requests of ranks that an output is handed out to.
own_IsDone :
    (out : List ℕ) (m : Memory) (ranks : List Arrival) (before : Store) (first : ℕ)
    (qs : List Share)
    → Numbered (Brought m (length before.ios) ranks) first qs
    → Numbered (λ io x. Has (IsDone out) (hand_out out ranks before).ios io) first qs
own_IsDone out m ranks before first qs own =
    Numbered-map first qs (λ io x h. hand_out-IsDone out ranks before x.rank _ h.1 h.0) own

all_reduce_Finishes :
    (r : Reduction) (full : Pending) (before : Store) (m : Memory) (first : ℕ) (qs : List Share)
    → length (present full.arrived) ≡ length full.arrived
    → Numbered (Stands m (length before.ios) full) first qs
    → Finishes r
        (present full.arrived)
        before
        first
        qs
        (after_completion full (reduce_out r (present full.arrived) before) before)
unfolding after_completion reduce_out
all_reduce_Finishes (output out) full before m first qs whole stands = (
  refl,
  own_IsDone out m (present full.arrived) before first qs
      (Numbered-map first qs (λ io x h. (h.0, present_all full.arrived x.rank _ whole h.1)) stands),
)
all_reduce_Finishes (refused error) full before m first qs whole stands = (
  fail_pending_memory Status.unsupported error full.arrived before,
  Numbered-map first qs
      (λ io x h.
        fail_pending-HasFailed Status.unsupported error full.arrived before x.rank _ h.1 h.0)
      stands,
)

all_reduce_result :
    (machine : Machine) (full : Pending) (before : Store) (data_type op count : ℕ)
    → full.kind ≡ all_reduce
    → full.data_type ≡ data_type
    → full.reduce_op ≡ op
    → full.count ≡ count
    → complete_pending machine full before
      ≡ reduce_out
          (sim_reduce_payloads machine data_type op count (payloads (present full.arrived)))
          (present full.arrived)
          before
unfolding complete_pending complete_kind
all_reduce_result machine full before data_type op count k t o c =
    rw (k, complete_kind, t, o, c) refl

module _ (machine : Machine) (q : Share) (qs : List Share) (s : Collectives) (w : IsWhole q qs)
    (free : find same_collective q.key s.pendings ≡ none)
    (distinct : Distinct same_collective s.pendings) where
  ends : Ended machine q.key (init_pending q) s.store (q ∷ qs) (shares machine (q ∷ qs) s)
  ends = shares-Ended machine q.key q qs (init_pending q) s (first_Coming q qs s w free distinct)

  bytes : ends.full.input_bytes ≡ q.input_bytes
  bytes = sym ends.terms.input_same ∙ (unfold init_pending in refl)

  collects : Collected q s.store (q ∷ qs) (shares machine (q ∷ qs) s)
  collects = record {
    ranks = present ends.full.arrived;
    before = ends.before;
    number = ends.whole ∙ ends.sized ∙ sym ends.terms.size_same ∙ (unfold init_pending in refl);
    memory_same = ends.memory_same;
    own =
        Numbered-map (length s.store.ios) (q ∷ qs)
          (λ io x h. (h.0, present_all ends.full.arrived x.rank _ ends.whole h.1)) ends.entries;
    filled = All-map (present ends.full.arrived) (λ x h. h ∙ bytes) ends.filled;
    freed = ends.freed;
  }

  abbrev ended : Store
  ended = (shares machine (q ∷ qs) s).store

  -- When all ranks of a communicator submit their parts of an all-gather under a free key, on the
  -- same terms, each once and in any order, the key is free again, and one output has been handed
  -- out to the destinations of the ranks: it has the input's size for each rank, and behind the
  -- sizes of the ranks below it holds, for each submission, the bytes that its source held at the
  -- start. The requests are those behind the ones that there were, in the order of the submissions,
  -- and each is done with FLUME_OK, the size and the checksum of the output.
  pub shares-all_gather :
      q.key.kind ≡ all_gather
      → (c : Collected q s.store (q ∷ qs) (shares machine (q ∷ qs) s)) × (out : List ℕ) × (ended
          ≡ hand_out out c.ranks c.before)
        × (length out ≡ q.key.rank_size * q.input_bytes)
        × Numbered
            (λ io x.
              (take q.input_bytes (drop (x.rank * q.input_bytes) out)
                ≡ load s.store.memory (x.src.ptr + x.src_offset) x.input_bytes)
              × Has (IsDone out) ended.ios io)
            (length s.store.ios)
            (q ∷ qs)
  unfolding collects
  shares-all_gather k =
      let kind : ends.full.kind ≡ all_gather =
        sym ends.terms.kind_same ∙ (unfold init_pending in k) in
      let out = gathered q.input_bytes (payloads collects.ranks) in
      let result : ended ≡ hand_out out collects.ranks collects.before =
        ends.result ∙ all_gather_result machine ends.full ends.before q.input_bytes kind bytes in
      (
        collects,
        out,
        result,
        length-gathered q.input_bytes collects.ranks collects.filled
            ∙ ap (λ n. n * q.input_bytes) collects.number,
        Numbered-map (length s.store.ios) (q ∷ qs)
            (λ io x h. (
              gathered_slice q.input_bytes collects.ranks x.rank _ collects.filled h.1,
              subst (λ t. Has (IsDone out) t.ios io) (sym result)
                  (hand_out-IsDone out collects.ranks collects.before x.rank _ h.1 h.0),
            ))
            collects.own,
      )

  -- When all ranks of a communicator submit their parts of an all-reduce under a free key, on the
  -- same terms, each once and in any order, the key is free again. Where the reduction of the
  -- payloads in the order of the ranks, each as its source held it at the start, has an output, it
  -- has been handed out to the destination of each rank; where it is refused, the memory is as
  -- before. The requests are those behind the ones that there were, one for each submission, and
  -- each is done: with FLUME_OK, the size and the checksum of the output, or with
  -- FLUME_ERR_UNSUPPORTED, no bytes and the error of the refusal.
  pub shares-all_reduce :
      q.key.kind ≡ all_reduce
      → (c : Collected q s.store (q ∷ qs) (shares machine (q ∷ qs) s)) × Finishes
          (sim_reduce_payloads machine q.data_type q.reduce_op q.count (payloads c.ranks))
          c.ranks
          c.before
          (length s.store.ios)
          (q ∷ qs)
          ended
  unfolding collects
  shares-all_reduce k =
      let kind : ends.full.kind ≡ all_reduce =
        sym ends.terms.kind_same ∙ (unfold init_pending in k) in
      let t : ends.full.data_type ≡ q.data_type =
        sym ends.terms.type_same ∙ (unfold init_pending in refl) in
      let o : ends.full.reduce_op ≡ q.reduce_op =
        sym ends.terms.op_same ∙ (unfold init_pending in refl) in
      let n : ends.full.count ≡ q.count =
        sym ends.terms.count_same ∙ (unfold init_pending in refl) in
      let r =
        sim_reduce_payloads machine q.data_type q.reduce_op q.count
          (payloads (present ends.full.arrived)) in
      (
        collects,
        subst (Finishes r (present ends.full.arrived) ends.before (length s.store.ios) (q ∷ qs))
            (sym (
              ends.result
              ∙ ap (λ x. after_completion ends.full x ends.before)
                  (all_reduce_result machine ends.full ends.before q.data_type q.reduce_op q.count
                    kind t o n)))
            (all_reduce_Finishes r ends.full ends.before s.store.memory (length s.store.ios)
              (q ∷ qs) ends.whole ends.entries),
      )
