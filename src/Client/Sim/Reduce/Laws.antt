-- ===== src/Client/Sim/Reduce/Laws.antt =====
-- The elements of a reduction.
use flume_ascend_host_bypass.Prelude.{
  ℕ, zero, suc, ◌+◌, ◌*◌, ◌/◌, ◌%◌, ◌^◌, ◌≤◌, ◌<◌, ◌≡◌, refl, ap, ap₂, sym, map, false, ◌∙◌, List,
  [], ◌∷◌, ◌++◌, take, drop, length, All, All-take, All-drop, arith, take-append, length-take,
}
use mathlib.Core.List.{foldl, Perm, Permᴰ}
use mathlib.Core.Logic.{∥∥₁_elim}
use native.Mathlib.Nat.{pow-succ', mod-add-mod}
use flume_ascend_host_bypass.Protocol.Words.{IsByte}
use flume_ascend_host_bypass.Client.DataType
use flume_ascend_host_bypass.Client.ReduceOp
use flume_ascend_host_bypass.Client.Sim.Reduce.{
  le_value, le_bytes, read_value, apply_reduce, fold_ranks, reduced, sim_reduce_loop,
  sim_reduce_typed, sim_reduce_payloads, by_type, Machine, output,
}

-- The number at an index of a payload, and the numbers there of all ranks.
abbrev pub element : ℕ → ℕ → List ℕ → ℕ
element size i payload = le_value (take size (drop (i * size) payload))

abbrev pub column : ℕ → ℕ → List (List ℕ) → List ℕ
column size i = map (element size i)

length-le_bytes : (n v : ℕ) → length (le_bytes n v) ≡ n
unfolding le_bytes
length-le_bytes zero v = refl
length-le_bytes (suc n) v = ap suc (length-le_bytes n (v / 256))

le_value-le_bytes : (n v : ℕ) → v < 256 ^ n → le_value (le_bytes n v) ≡ v
unfolding le_value le_bytes
le_value-le_bytes zero v h = omega (arith, h)
le_value-le_bytes (suc n) v h =
    let p = pow-succ' 256 n in
    let less_left : v / 256 < 256 ^ n = omega (arith, h, p) in
    ap (λ x. v % 256 + 256 * x) (le_value-le_bytes n (v / 256) less_left) ∙ omega arith

pow_positive : (n : ℕ) → 0 < 256 ^ n
pow_positive zero = omega arith
pow_positive (suc n) = omega (arith, pow_positive n, pow-succ' 256 n)

-- Bytes make a number of their width.
le_value-lt : (n : ℕ) (bs : List ℕ) → length bs ≤ n → All IsByte bs → le_value bs < 256 ^ n
unfolding le_value
le_value-lt n [] h a = pow_positive n
le_value-lt zero (b ∷ bs) h a = absurd (omega arith)
le_value-lt (suc n) (b ∷ bs) h a =
    omega (arith, a.0, le_value-lt n bs (omega arith) a.1, pow-succ' 256 n)

pub drop_past : (k : ℕ) (xs ys : List ℕ) → drop (length xs + k) (xs ++ ys) ≡ drop k ys
drop_past k [] ys = ap (λ n. drop n ys) (omega arith)
drop_past k (x ∷ xs) ys =
    let e : suc (length xs) + k ≡ suc (length xs + k) = omega arith in
    ap (λ n. drop n (x ∷ (xs ++ ys))) e ∙ drop_past k xs ys

-- The elements in front take their size each.
read_next :
    (size i : ℕ) (front back : List ℕ)
    → length front ≡ size
    → read_value size (front ++ back) (suc i) ≡ read_value size back i
unfolding read_value
read_next size i front back e =
    ap (λ n. le_value (take size (drop n (front ++ back)))) (grind (arith, e))
    ∙ ap (λ x. le_value (take size x)) (drop_past (i * size) front back)

read_first :
    (size : ℕ) (front back : List ℕ)
    → length front ≡ size
    → read_value size (front ++ back) 0 ≡ le_value front
unfolding read_value
read_first size front back e =
    let z : 0 * size ≡ 0 = omega arith in
    ap (λ n. le_value (take size (drop n (front ++ back)))) z
    ∙ ap (λ n. le_value (take n (front ++ back))) (sym e)
    ∙ ap le_value (take-append front back)

module _ (apply : ℕ → ℕ → ℕ) (size : ℕ) (first : List ℕ) (rest : List (List ℕ)) where
  loop_element :
      (left start i : ℕ)
      → ((k : ℕ) → reduced apply size first rest k < 256 ^ size)
      → i < left
      → read_value size (sim_reduce_loop apply size first rest left start) i
        ≡ reduced apply size first rest (start + i)
  unfolding sim_reduce_loop
  loop_element zero start i fits h = absurd (omega arith)
  loop_element (suc left) start zero fits h =
      read_first size (le_bytes size (reduced apply size first rest start)) _
        (length-le_bytes size _)
      ∙ le_value-le_bytes size _ (fits start)
      ∙ ap (reduced apply size first rest) (omega arith)
  loop_element (suc left) start (suc i) fits h =
      read_next size i (le_bytes size (reduced apply size first rest start)) _
        (length-le_bytes size _)
      ∙ loop_element left (start + 1) i fits (omega arith)
      ∙ ap (reduced apply size first rest) (omega arith)

  read_value-lt : (bs : List ℕ) (i : ℕ) → All IsByte bs → read_value size bs i < 256 ^ size
  unfolding read_value
  read_value-lt bs i a =
      le_value-lt size _ (omega (arith, length-take size (drop (i * size) bs)))
        (All-take IsByte size (drop (i * size) bs) (All-drop IsByte (i * size) bs a))

  fold_ranks-lt :
      (more : List (List ℕ)) (i acc : ℕ)
      → ((a b : ℕ) → a < 256 ^ size → b < 256 ^ size → apply a b < 256 ^ size)
      → All (All IsByte) more
      → acc < 256 ^ size
      → fold_ranks apply size more i acc < 256 ^ size
  fold_ranks-lt [] i acc closed a h = h
  fold_ranks-lt (p ∷ more) i acc closed a h =
      fold_ranks-lt more i _ closed a.1 (closed acc _ h (read_value-lt p i a.0))

fold_ranks-foldl :
    (apply : ℕ → ℕ → ℕ) (size : ℕ) (rest : List (List ℕ)) (i acc : ℕ)
    → fold_ranks apply size rest i acc ≡ foldl apply acc (column size i rest)
unfolding read_value
fold_ranks-foldl apply size [] i acc = refl
fold_ranks-foldl apply size (p ∷ rest) i acc = fold_ranks-foldl apply size rest i _

-- For an operation that stays in the width of the elements, and payloads of bytes, the element of
-- the output at each index below the count is the operation folded, from the first rank's element
-- on, over the elements that the other ranks have at that index, in their order.
pub sim_reduce_typed-element :
    (apply : ℕ → ℕ → ℕ) (size : ℕ) (first : List ℕ) (rest : List (List ℕ)) (count i : ℕ)
    → ((a b : ℕ) → a < 256 ^ size → b < 256 ^ size → apply a b < 256 ^ size)
    → All IsByte first
    → All (All IsByte) rest
    → i < count
    → element size i (sim_reduce_typed apply size count first rest)
      ≡ foldl apply (element size i first) (column size i rest)
unfolding sim_reduce_typed reduced read_value
sim_reduce_typed-element apply size first rest count i closed f r h =
    loop_element apply size first rest count 0 i
      (λ k.
        fold_ranks-lt apply size first rest rest k _ closed r
          (read_value-lt apply size first rest first k f))
      h
    ∙ fold_ranks-foldl apply size rest (0 + i) _
    ∙ ap (λ k. foldl apply (element size k first) (column size k rest)) (omega arith)

-- The sum of the numbers that all ranks have at one place.
abbrev pub total_at : ℕ → ℕ → List (List ℕ) → ℕ
total_at size i [] = 0
total_at size i (p ∷ rest) = element size i p + total_at size i rest

-- The sums of all places from an index on, each as its lowest bytes.
abbrev pub sums : ℕ → ℕ → ℕ → List (List ℕ) → List ℕ
sums size zero i ranks = []
sums size (suc left) i ranks =
    le_bytes size (total_at size i ranks % 256 ^ size) ++ sums size left (i + 1) ranks

-- The unsigned types, with the bytes of an element.
pub data IsUnsigned : ℕ → ℕ → Type 0 where
  byte : IsUnsigned DataType.uint8 1
  short : IsUnsigned DataType.uint16 2
  word : IsUnsigned DataType.uint32 4
  long : IsUnsigned DataType.uint64 8

module _ (apply : ℕ → ℕ → ℕ) (size : ℕ) (sum : (a b : ℕ) → apply a b ≡ (a + b) % 256 ^ size) where
  fold_sum :
      (i : ℕ) (p : List ℕ) (rest : List (List ℕ)) (acc : ℕ)
      → fold_ranks apply size (p ∷ rest) i acc ≡ (acc + total_at size i (p ∷ rest)) % 256 ^ size
  unfolding read_value
  fold_sum i p [] acc = sum acc _ ∙ ap (λ n. n % 256 ^ size) (omega arith)
  fold_sum i p (p' ∷ rest) acc =
      ap (fold_ranks apply size (p' ∷ rest) i) (sum acc _)
      ∙ fold_sum i p' rest ((acc + element size i p) % 256 ^ size)
      ∙ mod-add-mod (acc + element size i p) (256 ^ size) (total_at size i (p' ∷ rest))
      ∙ ap (λ n. n % 256 ^ size) (omega arith)

  loop_sums :
      (first second : List ℕ) (rest : List (List ℕ)) (left i : ℕ)
      → sim_reduce_loop apply size first (second ∷ rest) left i
        ≡ sums size left i (first ∷ (second ∷ rest))
  unfolding sim_reduce_loop reduced read_value
  loop_sums first second rest zero i = refl
  loop_sums first second rest (suc left) i =
      ap₂ (λ n bs. le_bytes size n ++ bs) (fold_sum i second rest (element size i first))
        (loop_sums first second rest left (i + 1))

total_at-Permᴰ :
    (size i : ℕ) {ps rs : List (List ℕ)} → Permᴰ ps rs → total_at size i ps ≡ total_at size i rs
total_at-Permᴰ size i Permᴰ.nil = refl
total_at-Permᴰ size i (Permᴰ.cons e d) =
    ap₂ (λ p n. element size i p + n) e (total_at-Permᴰ size i d)
total_at-Permᴰ size i (Permᴰ.swap {a = a} {b = b} {a' = a'} {b' = b'} {l = l} e d) =
    ap₂ (λ p r. element size i p + (element size i r + total_at size i l)) e d ∙ omega arith
total_at-Permᴰ size i (Permᴰ.trans d e) = total_at-Permᴰ size i d ∙ total_at-Permᴰ size i e

total_at-Perm :
    (size i : ℕ) {ps rs : List (List ℕ)} → Perm ps rs → total_at size i ps ≡ total_at size i rs
total_at-Perm size i {ps} {rs} p =
    let set : IsProp (total_at size i ps ≡ total_at size i rs) = hlevel in
    ∥∥₁_elim p set (total_at-Permᴰ size i)

sums-Perm :
    (size left i : ℕ) {ps rs : List (List ℕ)}
    → Perm ps rs
    → sums size left i ps ≡ sums size left i rs
sums-Perm size zero i p = refl
sums-Perm size (suc left) i p =
    ap₂ (λ n bs. le_bytes size (n % 256 ^ size) ++ bs) (total_at-Perm size i p)
      (sums-Perm size left (i + 1) p)

unsigned_sum :
    (machine : Machine) {t size : ℕ} (count : ℕ) (first second : List ℕ) (rest : List (List ℕ))
    → IsUnsigned t size
    → sim_reduce_payloads machine t ReduceOp.sum count (first ∷ (second ∷ rest))
      ≡ output (sums size count 0 (first ∷ (second ∷ rest)))
unfolding sim_reduce_payloads by_type sim_reduce_typed apply_reduce
unsigned_sum machine count first second rest byte = ap output (
    loop_sums (apply_reduce machine false 8 ReduceOp.sum) 1 (λ a b. refl) first second rest count 0)
unsigned_sum machine count first second rest short = ap output (
    loop_sums (apply_reduce machine false 16 ReduceOp.sum) 2 (λ a b. refl) first second rest count
      0)
unsigned_sum machine count first second rest word = ap output (
    loop_sums (apply_reduce machine false 32 ReduceOp.sum) 4 (λ a b. refl) first second rest count
      0)
unsigned_sum machine count first second rest long = ap output (
    loop_sums (apply_reduce machine false 64 ReduceOp.sum) 8 (λ a b. refl) first second rest count
      0)

-- For the unsigned types and two ranks or more, SimReducePayloads gives for the sum what one gets,
-- at each index below the count, by adding the elements of all ranks as natural numbers and keeping
-- the lowest bytes, for the ranks in any order.
pub sim_reduce_payloads-sums :
    (machine : Machine) {t size : ℕ} (count : ℕ) (first second : List ℕ) (rest : List (List ℕ))
    {ranks : List (List ℕ)}
    → IsUnsigned t size
    → Perm (first ∷ (second ∷ rest)) ranks
    → sim_reduce_payloads machine t ReduceOp.sum count (first ∷ (second ∷ rest))
      ≡ output (sums size count 0 ranks)
sim_reduce_payloads-sums machine {size = size} count first second rest u p =
    unsigned_sum machine count first second rest u ∙ ap output (sums-Perm size count 0 p)
