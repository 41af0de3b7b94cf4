-- ===== src/Client/Sim/Collective/Tests.antt =====
-- The properties of collectives, applied to two ranks that share two 16-bit numbers each.
use flume_ascend_host_bypass.Prelude.{
  ℕ, ◌+◌, ◌*◌, take, drop, length, Numbered, ◌^◌, ◌<◌, ◌≡◌, inl, refl, true, false, List, [], ◌∷◌,
  All, arith,
}
use mathlib.Core.List.Perm
use flume_ascend_host_bypass.Client.BufferType
use flume_ascend_host_bypass.Client.DataType
use flume_ascend_host_bypass.Client.ReduceOp
use flume_ascend_host_bypass.Client.Memory.{load}
use flume_ascend_host_bypass.Client.Buffer.{Buffer}
use flume_ascend_host_bypass.Client.Table.{find}
use flume_ascend_host_bypass.Client.Sim.Reduce.{
  Machine, le_value, apply_reduce, sim_reduce_typed, output, sim_reduce_payloads,
}
use flume_ascend_host_bypass.Client.Sim.Reduce.Laws.{
  element, sums, IsUnsigned, sim_reduce_typed-element, sim_reduce_payloads-sums,
}
use flume_ascend_host_bypass.Client.Sim.Collective.{
  Kind, all_reduce, all_gather, Arrival, Share, Collectives, payloads, hand_out,
}
use flume_ascend_host_bypass.Client.Sim.Collective.Gather.{shares}
use flume_ascend_host_bypass.Client.Sim.Collective.Outcome.{Has, place, hand_out-stored}
use flume_ascend_host_bypass.Client.Sim.P2p.Delivery.{IsDone}
use flume_ascend_host_bypass.Client.Sim.Collective.Whole.{
  Alike, IsWhole, Collected, Finishes, shares-all_gather, shares-all_reduce,
}

abbrev machine : Machine
machine = record { apply32 = λ op a b. a; apply64 = λ op a b. a; undefined = λ width op a b. 0 }

abbrev buffer : ℕ → ℕ → Buffer
buffer handle ptr = record {
  handle = handle;
  client = handle;
  ptr = ptr;
  len = 16;
  type = BufferType.sim_hbm;
}

abbrev part : Kind → ℕ → Share
part kind rank = record {
  key = record { comm_name = 99 ∷ []; rank_size = 2; seq = 0; kind = kind };
  rank = rank;
  dst = buffer rank (100 * rank);
  dst_offset = 0;
  src = buffer rank (100 * rank);
  src_offset = 8;
  count = 2;
  data_type = DataType.uint16;
  reduce_op = ReduceOp.sum;
  input_bytes = 4;
  output_bytes = 8;
}

abbrev start : Collectives
start = record {
  pendings = [];
  store = record {
    memory = λ a. a;
    pending_refs = λ h. 0;
    symmetric_refs = λ h. 0;
    live = λ h. true;
    ios = [];
  };
}

alike : (kind : Kind) (rank : ℕ) → rank < 2 → Alike (part kind 1) (part kind rank)
alike kind rank h = record {
  key_same = refl;
  count_same = refl;
  type_same = refl;
  op_same = refl;
  input_same = refl;
  output_same = refl;
  rank_known = h;
}

-- Rank 1 comes first.
whole : (kind : Kind) → IsWhole (part kind 1) (part kind 0 ∷ [])
whole kind = record {
  alike = (alike kind 1 (omega arith), (alike kind 0 (omega arith), tt));
  different = ((λ e. absurd (omega (arith, e)), tt), (tt, tt));
  number = refl;
}

abbrev both : Kind → Collectives
both kind = shares machine (part kind 1 ∷ (part kind 0 ∷ [])) start

shares-all_gather_example :
    let qs = part all_gather 1 ∷ (part all_gather 0 ∷ []) in
    let ended = (both all_gather).store in
    (c : Collected (part all_gather 1) start.store qs (both all_gather)) × (out : List ℕ) × (ended
      ≡ hand_out out c.ranks c.before)
    × (length out ≡ 2 * 4)
    × Numbered
        (λ io x.
          (take 4 (drop (x.rank * 4) out)
            ≡ load start.store.memory (x.src.ptr + x.src_offset) x.input_bytes)
          × Has (IsDone out) ended.ios io)
        0
        qs
unfolding find
shares-all_gather_example =
    shares-all_gather machine (part all_gather 1) (part all_gather 0 ∷ []) start (whole all_gather)
      refl tt refl

shares-all_reduce_example :
    (c : Collected
      (part all_reduce 1)
      start.store
      (part all_reduce 1 ∷ (part all_reduce 0 ∷ []))
      (both all_reduce))
    × Finishes
        (sim_reduce_payloads machine DataType.uint16 ReduceOp.sum 2 (payloads c.ranks))
        c.ranks
        c.before
        0
        (part all_reduce 1 ∷ (part all_reduce 0 ∷ []))
        (both all_reduce).store
unfolding find
shares-all_reduce_example =
    shares-all_reduce machine (part all_reduce 1) (part all_reduce 0 ∷ []) start (whole all_reduce)
      refl tt refl

abbrev entry : ℕ → Arrival
entry rank = record { payload = []; dst = buffer rank (100 * rank); dst_offset = 0; io = rank }

abbrev sum_out : List ℕ
sum_out = 1 ∷ 2 ∷ []

hand_out-stored_example :
    All
      (λ a.
        load (hand_out sum_out (entry 0 ∷ (entry 1 ∷ [])) start.store).memory (place a) 2 ≡ sum_out)
      (entry 0 ∷ (entry 1 ∷ []))
hand_out-stored_example =
    hand_out-stored sum_out (entry 0 ∷ (entry 1 ∷ [])) start.store
      ((inl (omega arith), tt), (tt, tt))

bytes_lt :
    (a b : ℕ) → a < 256 ^ 1 → b < 256 ^ 1 → apply_reduce machine false 8 ReduceOp.sum a b < 256 ^ 1
unfolding apply_reduce
bytes_lt a b h k = omega arith

-- 200, 100 and 7 in a byte are 51.
sim_reduce_typed-element_example :
    element 1 0 (
      sim_reduce_typed
        (apply_reduce machine false 8 ReduceOp.sum)
        1
        2
        (200 ∷ 1 ∷ [])
        ((100 ∷ 2 ∷ []) ∷ ((7 ∷ 3 ∷ []) ∷ [])))
    ≡ 51
unfolding apply_reduce le_value
sim_reduce_typed-element_example =
    sim_reduce_typed-element (apply_reduce machine false 8 ReduceOp.sum) 1 (200 ∷ 1 ∷ [])
      ((100 ∷ 2 ∷ []) ∷ ((7 ∷ 3 ∷ []) ∷ [])) 2 0 bytes_lt (omega arith, (omega arith, tt))
      ((omega arith, (omega arith, tt)), ((omega arith, (omega arith, tt)), tt)) (omega arith)

sim_reduce_payloads-sums_example :
    sim_reduce_payloads machine DataType.uint16 ReduceOp.sum 1
      ((0 ∷ 200 ∷ []) ∷ ((5 ∷ 100 ∷ []) ∷ []))
    ≡ output (sums 2 1 0 ((5 ∷ 100 ∷ []) ∷ ((0 ∷ 200 ∷ []) ∷ [])))
sim_reduce_payloads-sums_example =
    sim_reduce_payloads-sums machine 1 (0 ∷ 200 ∷ []) (5 ∷ 100 ∷ []) [] IsUnsigned.short
      (Perm.swap _ _ [])
