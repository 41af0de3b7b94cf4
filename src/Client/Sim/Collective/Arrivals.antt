-- ===== src/Client/Sim/Collective/Arrivals.antt =====
-- The entries of the ranks: how many are there, and which.
use flume_ascend_host_bypass.Prelude.{
  ℕ, zero, suc, ◌≤◌, ◌<◌, ◌≡◌, ◌≢◌, refl, ap, ◌∙◌, true, false, Option, none, some, List, [], ◌∷◌,
  length, get_elem?, replicate, All, arith, length-replicate,
}
use flume_ascend_host_bypass.Client.Sim.Collective.{
  Arrival, Pending, Share, init_pending, set_arrived, present, arrive, has_arrived,
}

length-set_arrived :
    (xs : List (Option Arrival)) (r : ℕ) (a : Arrival) → length (set_arrived xs r a) ≡ length xs
length-set_arrived [] r a = refl
length-set_arrived (x ∷ xs) zero a = refl
length-set_arrived (x ∷ xs) (suc r) a = ap suc (length-set_arrived xs r a)

-- A rank that comes is one more that is there.
present-set_arrived :
    (xs : List (Option Arrival)) (r : ℕ) (a : Arrival)
    → r < length xs
    → has_arrived xs r ≡ false
    → length (present (set_arrived xs r a)) ≡ suc (length (present xs))
present-set_arrived [] r a h n = absurd (omega arith)
present-set_arrived (none ∷ xs) zero a h n = refl
present-set_arrived (some x ∷ xs) zero a h n = cc
present-set_arrived (none ∷ xs) (suc r) a h n = present-set_arrived xs r a (omega arith) n
present-set_arrived (some x ∷ xs) (suc r) a h n =
    ap suc (present-set_arrived xs r a (omega arith) n)

pub get_elem?-set_arrived :
    (xs : List (Option Arrival)) (r : ℕ) (a : Arrival)
    → r < length xs
    → get_elem? (set_arrived xs r a) r ≡ some (some a)
get_elem?-set_arrived [] r a h = absurd (omega arith)
get_elem?-set_arrived (x ∷ xs) zero a h = refl
get_elem?-set_arrived (x ∷ xs) (suc r) a h = get_elem?-set_arrived xs r a (omega arith)

pub get_elem?-set_arrived_ne :
    (xs : List (Option Arrival)) (r other : ℕ) (a : Arrival)
    → other ≢ r
    → get_elem? (set_arrived xs r a) other ≡ get_elem? xs other
get_elem?-set_arrived_ne [] r other a h = refl
get_elem?-set_arrived_ne (x ∷ xs) zero zero a h = absurd (h refl)
get_elem?-set_arrived_ne (x ∷ xs) zero (suc other) a h = refl
get_elem?-set_arrived_ne (x ∷ xs) (suc r) zero a h = refl
get_elem?-set_arrived_ne (x ∷ xs) (suc r) (suc other) a h =
    get_elem?-set_arrived_ne xs r other a (λ e. h (ap suc e))

pub has_arrived-set_arrived_ne :
    (xs : List (Option Arrival)) (r other : ℕ) (a : Arrival)
    → other ≢ r
    → has_arrived (set_arrived xs r a) other ≡ has_arrived xs other
has_arrived-set_arrived_ne [] r other a h = refl
has_arrived-set_arrived_ne (x ∷ xs) zero zero a h = absurd (h refl)
has_arrived-set_arrived_ne (none ∷ xs) zero (suc other) a h = refl
has_arrived-set_arrived_ne (some x ∷ xs) zero (suc other) a h = refl
has_arrived-set_arrived_ne (none ∷ xs) (suc r) zero a h = refl
has_arrived-set_arrived_ne (some x ∷ xs) (suc r) zero a h = refl
has_arrived-set_arrived_ne (none ∷ xs) (suc r) (suc other) a h =
    has_arrived-set_arrived_ne xs r other a (λ e. h (ap suc e))
has_arrived-set_arrived_ne (some x ∷ xs) (suc r) (suc other) a h =
    has_arrived-set_arrived_ne xs r other a (λ e. h (ap suc e))

-- An entry that is there counts as arrived.
pub get_elem?-has_arrived :
    (xs : List (Option Arrival)) (r : ℕ) (a : Arrival)
    → get_elem? xs r ≡ some (some a)
    → has_arrived xs r ≡ true
get_elem?-has_arrived [] r a e = cc
get_elem?-has_arrived (none ∷ xs) zero a e = cc
get_elem?-has_arrived (some x ∷ xs) zero a e = refl
get_elem?-has_arrived (none ∷ xs) (suc r) a e = get_elem?-has_arrived xs r a e
get_elem?-has_arrived (some x ∷ xs) (suc r) a e = get_elem?-has_arrived xs r a e

present-none : (n : ℕ) → length (present (replicate n none)) ≡ 0
present-none zero = refl
present-none (suc n) = present-none n

pub has_arrived-none : (n r : ℕ) → has_arrived (replicate n none) r ≡ false
has_arrived-none zero r = refl
has_arrived-none (suc n) zero = refl
has_arrived-none (suc n) (suc r) = has_arrived-none n r

present-le : (xs : List (Option Arrival)) → length (present xs) ≤ length xs
present-le [] = omega arith
present-le (none ∷ xs) = omega (arith, present-le xs)
present-le (some x ∷ xs) = omega (arith, present-le xs)

-- Where as many are there as there are ranks, every rank is.
pub present_all :
    (xs : List (Option Arrival)) (r : ℕ) (a : Arrival)
    → length (present xs) ≡ length xs
    → get_elem? xs r ≡ some (some a)
    → get_elem? (present xs) r ≡ some a
present_all [] r a l e = cc
present_all (none ∷ xs) r a l e = absurd (omega (arith, l, present-le xs))
present_all (some x ∷ xs) zero a l e = cc
present_all (some x ∷ xs) (suc r) a l e = present_all xs r a (omega (arith, l)) e

All-present-none : (P : Arrival → Type 0) (n : ℕ) → All P (present (replicate n none))
All-present-none P zero = tt
All-present-none P (suc n) = All-present-none P n

All-present_set :
    (P : Arrival → Type 0) (xs : List (Option Arrival)) (r : ℕ) (a : Arrival)
    → P a
    → All P (present xs)
    → All P (present (set_arrived xs r a))
All-present_set P [] r a h k = tt
All-present_set P (none ∷ xs) zero a h k = (h, k)
All-present_set P (some x ∷ xs) zero a h k = (h, k.1)
All-present_set P (none ∷ xs) (suc r) a h k = All-present_set P xs r a h k
All-present_set P (some x ∷ xs) (suc r) a h k = (k.0, All-present_set P xs r a h k.1)

-- The number of arrivals is kept, and each has brought a payload of the input's size.
pub record IsPending (p : Pending) : Type 0 where
  pub sized : length p.arrived ≡ p.rank_size
  pub counted : length (present p.arrived) ≡ p.arrivals
  pub filled : All (λ a. length a.payload ≡ p.input_bytes) (present p.arrived)

pub init_pending-IsPending : (q : Share) → IsPending (init_pending q)
unfolding init_pending
init_pending-IsPending q = record {
  sized = length-replicate q.key.rank_size none;
  counted = present-none q.key.rank_size;
  filled = All-present-none _ q.key.rank_size;
}

pub arrive-IsPending :
    (q : Share) (payload : List ℕ) (io : ℕ) (p : Pending)
    → q.rank < p.rank_size
    → has_arrived p.arrived q.rank ≡ false
    → length payload ≡ p.input_bytes
    → IsPending p
    → IsPending (arrive q payload io p)
unfolding arrive
arrive-IsPending q payload io p h n l v =
    let a : Arrival = record {
      payload = payload;
      dst = q.dst;
      dst_offset = q.dst_offset;
      io = io;
    } in
    record {
      sized = length-set_arrived p.arrived q.rank a ∙ v.sized;
      counted =
          present-set_arrived p.arrived q.rank a (omega (arith, h, v.sized)) n
          ∙ omega (arith, v.counted);
      filled = All-present_set _ p.arrived q.rank a l v.filled;
    }
