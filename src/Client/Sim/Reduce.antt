-- ===== src/Client/Sim/Reduce.antt =====
-- src/core/client.cc: the reduction of the ranks' payloads, element by element. An element is read
-- as the number that its bytes are, least significant first; a signed number is its two's
-- complement. What the source leaves undefined, and what the machine's floats give, is a parameter.
pub mod Laws
use flume_ascend_host_bypass.Prelude.{
  ℕ, zero, suc, ◌+◌, ◌-◌, ◌*◌, ◌/◌, ◌%◌, ◌^◌, Bool, true, false, ◌||◌, Option, none, some, List, [],
  ◌∷◌, ◌++◌, take, drop, not, ◌&&◌, ltb, leb, ◌==◌, if◌then◌else◌,
}
use flume_ascend_host_bypass.Client.DataType
use flume_ascend_host_bypass.Client.ReduceOp
use flume_ascend_host_bypass.Client.Io.{Detail, half_floats, unsupported_type}

-- What the source does not say. An operation on float and on double: the operator, and the bits of
-- both sides and of the result. An integer operation whose result leaves its type, where that has no
-- defined result: the width, the operator and both sides.
pub record Machine : Type 0 where
  pub apply32 : ℕ → ℕ → ℕ → ℕ
  pub apply64 : ℕ → ℕ → ℕ → ℕ
  pub undefined : ℕ → ℕ → ℕ → ℕ → ℕ

unfoldable pub le_value : List ℕ → ℕ
le_value [] = 0
le_value (b ∷ bs) = b + 256 * le_value bs

unfoldable pub le_bytes : ℕ → ℕ → List ℕ
le_bytes zero v = []
le_bytes (suc n) v = v % 256 ∷ le_bytes n (v / 256)

unfoldable pub read_value : ℕ → List ℕ → ℕ → ℕ
unfolding le_value
read_value size payload index = le_value (take size (drop (index * size) payload))

-- The order of signed numbers on their two's complements.
unfoldable pub less : Bool → ℕ → ℕ → ℕ → Bool
less false width a b = ltb a b
less true width a b = ltb ((a + 2 ^ (width - 1)) % 2 ^ width) ((b + 2 ^ (width - 1)) % 2 ^ width)

is_negative : ℕ → ℕ → Bool
is_negative width a = leb (2 ^ (width - 1)) a

magnitude : ℕ → ℕ → ℕ
unfolding is_negative
magnitude width a = if is_negative width a then 2 ^ width - a else a

same_sign : ℕ → ℕ → ℕ → Bool
unfolding is_negative
same_sign width a b = if is_negative width a then is_negative width b else not (is_negative width b)

-- A sum of narrow numbers is one of int, which holds it; a sum of unsigned ones wraps.
sum_overflows : Bool → ℕ → ℕ → ℕ → Bool
unfolding is_negative
sum_overflows signed width a b =
    signed
    && (leb 32 width
        && (if is_negative width a
            then is_negative width b && ltb (a + b - 2 ^ width) (2 ^ (width - 1))
            else not (is_negative width b) && leb (2 ^ (width - 1)) (a + b)))

-- A product of narrow numbers is one of int, which does not hold that of all unsigned ones of 16
-- bits.
product_overflows : Bool → ℕ → ℕ → ℕ → Bool
unfolding is_negative magnitude same_sign
product_overflows false width a b = (width == 16) && leb (2 ^ 31) (a * b)
product_overflows true width a b =
    leb 32 width
    && (if same_sign width a b
        then leb (2 ^ (width - 1)) (magnitude width a * magnitude width b)
        else ltb (2 ^ (width - 1)) (magnitude width a * magnitude width b))

unfoldable pub apply_reduce : Machine → Bool → ℕ → ℕ → ℕ → ℕ → ℕ
unfolding less sum_overflows product_overflows
apply_reduce machine signed width op lhs rhs =
    if op == ReduceOp.sum
    then (if sum_overflows signed width lhs rhs
        then machine.undefined width op lhs rhs
        else (lhs + rhs) % 2 ^ width)
    else if op == ReduceOp.prod
    then (if product_overflows signed width lhs rhs
        then machine.undefined width op lhs rhs
        else lhs * rhs % 2 ^ width)
    else if op == ReduceOp.max_of
    then (if less signed width lhs rhs then rhs else lhs)
    else if op == ReduceOp.min_of
    then (if less signed width rhs lhs then rhs else lhs)
    else lhs

-- The ranks behind the first are taken in turn.
abbrev pub fold_ranks : (ℕ → ℕ → ℕ) → ℕ → List (List ℕ) → ℕ → ℕ → ℕ
fold_ranks apply size [] index acc = acc
fold_ranks apply size (payload ∷ rest) index acc =
    fold_ranks apply size rest index (apply acc (read_value size payload index))

unfoldable pub reduced : (ℕ → ℕ → ℕ) → ℕ → List ℕ → List (List ℕ) → ℕ → ℕ
reduced apply size first rest index = fold_ranks apply size rest index (read_value size first index)

-- The elements that are left, from an index on.
unfoldable pub sim_reduce_loop : (ℕ → ℕ → ℕ) → ℕ → List ℕ → List (List ℕ) → ℕ → ℕ → List ℕ
unfolding reduced le_bytes
sim_reduce_loop apply size first rest zero index = []
sim_reduce_loop apply size first rest (suc left) index =
    le_bytes size (reduced apply size first rest index)
    ++ sim_reduce_loop apply size first rest left (index + 1)

unfoldable pub sim_reduce_typed : (ℕ → ℕ → ℕ) → ℕ → ℕ → List ℕ → List (List ℕ) → List ℕ
unfolding sim_reduce_loop
sim_reduce_typed apply size count first rest = sim_reduce_loop apply size first rest count 0

pub data Reduction : Type 0 where
  output : List ℕ → Reduction
  refused : Detail → Reduction

by_type : Machine → ℕ → ℕ → ℕ → List ℕ → List (List ℕ) → Reduction
unfolding sim_reduce_typed apply_reduce
by_type machine data_type op count first rest =
    if data_type == DataType.int8
    then output (sim_reduce_typed (apply_reduce machine true 8 op) 1 count first rest)
    else if data_type == DataType.uint8
    then output (sim_reduce_typed (apply_reduce machine false 8 op) 1 count first rest)
    else if data_type == DataType.int16
    then output (sim_reduce_typed (apply_reduce machine true 16 op) 2 count first rest)
    else if data_type == DataType.uint16
    then output (sim_reduce_typed (apply_reduce machine false 16 op) 2 count first rest)
    else if data_type == DataType.int32
    then output (sim_reduce_typed (apply_reduce machine true 32 op) 4 count first rest)
    else if data_type == DataType.uint32
    then output (sim_reduce_typed (apply_reduce machine false 32 op) 4 count first rest)
    else if data_type == DataType.int64
    then output (sim_reduce_typed (apply_reduce machine true 64 op) 8 count first rest)
    else if data_type == DataType.uint64
    then output (sim_reduce_typed (apply_reduce machine false 64 op) 8 count first rest)
    else if data_type == DataType.fp32
    then output (sim_reduce_typed (machine.apply32 op) 4 count first rest)
    else if data_type == DataType.fp64
    then output (sim_reduce_typed (machine.apply64 op) 8 count first rest)
    else if (data_type == DataType.fp16) || (data_type == DataType.bfp16)
    then refused half_floats
    else refused unsupported_type

-- One rank's payload is the result as it is. There is a rank at least.
unfoldable pub sim_reduce_payloads : Machine → ℕ → ℕ → ℕ → List (List ℕ) → Reduction
unfolding by_type
sim_reduce_payloads machine data_type op count [] = output []
sim_reduce_payloads machine data_type op count (first ∷ []) = output first
sim_reduce_payloads machine data_type op count (first ∷ second ∷ rest) =
    by_type machine data_type op count first (second ∷ rest)
