-- ===== src/Roce/Words.antt =====
-- src/roce_storage/roce_storage.cc: numbers as bytes, least significant byte first, and the reads at
-- an offset that moves on only where a read succeeds.
use flume_ascend_host_bypass.Prelude.{
  ℕ, zero, suc, ◌+◌, ◌-◌, ◌*◌, ◌/◌, ◌%◌, ◌^◌, ◌≤◌, ◌<◌, ◌≡◌, ap, ◌∙◌, ◌||◌, Bool, Option, none,
  some, List, [], ◌∷◌, ◌++◌, bit_or, arith, get_or, drop, length, ltb, if◌then◌else◌,
}
use native.Mathlib.Nat.{mod-eq_of_lt}
use flume_ascend_host_bypass.Prelude.Bits.{bit_or_below}
use flume_ascend_host_bypass.Protocol.Words.{IsByte, IsU16, IsU32, IsU64, byte_at}

unfoldable pub append_u16 : ℕ → List ℕ → List ℕ
append_u16 value out = out ++ (byte_at value 0 ∷ byte_at value 8 ∷ [])

-- The loop over the shift, with the rounds that are left.
unfoldable pub append_loop : ℕ → ℕ → ℕ → List ℕ → List ℕ
append_loop zero shift value out = out
append_loop (suc n) shift value out =
    append_loop n (shift + 8) value (out ++ (byte_at value shift ∷ []))

unfoldable pub append_u32 : ℕ → List ℕ → List ℕ
unfolding append_loop
append_u32 value out = append_loop 4 0 value out

unfoldable pub append_u64 : ℕ → List ℕ → List ℕ
unfolding append_loop
append_u64 value out = append_loop 8 0 value out

-- Each round puts one byte above the bits that have been read.
unfoldable pub load_loop : ℕ → ℕ → ℕ → List ℕ → ℕ → ℕ
load_loop zero shift width raw out = out
load_loop (suc n) shift width raw out =
    load_loop n (shift + 8) width (drop 1 raw) (bit_or out (get_or raw 0 0 * 2 ^ shift % 2 ^ width))

-- `*offset > len || len - *offset < size`
pub short : List ℕ → ℕ → ℕ → Bool
short wire offset size = ltb (length wire) offset || ltb (length wire - offset) size

abbrev pub Parse : Type 0 → Type 0
Parse A = List ℕ → ℕ → Option (A × ℕ)

unfoldable pub read_u16 : Parse ℕ
unfolding short
read_u16 wire offset =
    if short wire offset 2
    then none
    else some (
      bit_or (get_or (drop offset wire) 0 0) (get_or (drop offset wire) 1 0 * 2 ^ 8) % 2 ^ 16,
      offset + 2,
    )

unfoldable pub read_u32 : Parse ℕ
unfolding short load_loop
read_u32 wire offset =
    if short wire offset 4 then none else some (load_loop 4 0 32 (drop offset wire) 0, offset + 4)

unfoldable pub read_u64 : Parse ℕ
unfolding short load_loop
read_u64 wire offset =
    if short wire offset 8 then none else some (load_loop 8 0 64 (drop offset wire) 0, offset + 8)

infixl 5 ◌>>=◌
abbrev pub ◌>>=◌ : {A B : Type 0} → Parse A → (A → Parse B) → Parse B
◌>>=◌ m f wire offset = elim (m wire offset) [ none ↦ none | some (a, next) ↦ f a wire next ]

abbrev pub return : {A : Type 0} → A → Parse A
return a wire offset = some (a, offset)

-- The bytes that the appends add.
abbrev pub le16 : ℕ → List ℕ
le16 v = byte_at v 0 ∷ byte_at v 8 ∷ []

abbrev pub le32 : ℕ → List ℕ
le32 v = byte_at v 0 ∷ byte_at v 8 ∷ byte_at v 16 ∷ byte_at v 24 ∷ []

abbrev pub le64 : ℕ → List ℕ
le64 v =
    byte_at v 0
    ∷ byte_at v 8
    ∷ byte_at v 16
    ∷ byte_at v 24
    ∷ byte_at v 32
    ∷ byte_at v 40
    ∷ byte_at v 48
    ∷ byte_at v 56
    ∷ []

or16_sum : (a b : ℕ) → IsByte a → IsByte b → bit_or a (b * 2 ^ 8) % 2 ^ 16 ≡ a + b * 2 ^ 8
or16_sum a b ha hb = ground (arith, bit_or_below 8 b a)

load_round :
    (n shift width b out : ℕ) (rest : List ℕ)
    → out < 2 ^ shift
    → b * 2 ^ shift < 2 ^ width
    → load_loop (suc n) shift width (b ∷ rest) out
      ≡ load_loop n (shift + 8) width rest (out + b * 2 ^ shift)
unfolding load_loop
load_round n shift width b out rest ho hb =
    ap (load_loop n (shift + 8) width rest)
      (ap (bit_or out) (mod-eq_of_lt hb) ∙ bit_or_below shift b out ho)

-- Four rounds, at the two places where four rounds begin.
load_low :
    (n width a b c d : ℕ) (rest : List ℕ)
    → IsByte a
    → IsByte b
    → IsByte c
    → IsByte d
    → 2 ^ 32 ≤ 2 ^ width
    → load_loop (suc (suc (suc (suc n)))) 0 width (a ∷ b ∷ c ∷ d ∷ rest) 0
      ≡ load_loop n 32 width rest (a + b * 2 ^ 8 + c * 2 ^ 16 + d * 2 ^ 24)
load_low n width a b c d rest ha hb hc hd w =
    load_round _ 0 width a 0 _ (omega arith) (omega (arith, w))
    ∙ load_round _ 8 width b (0 + a * 2 ^ 0) _ (omega arith) (omega (arith, w))
    ∙ load_round _ 16 width c (0 + a * 2 ^ 0 + b * 2 ^ 8) _ (omega arith) (omega (arith, w))
    ∙ load_round n 24 width d (0 + a * 2 ^ 0 + b * 2 ^ 8 + c * 2 ^ 16) rest (omega arith)
        (omega (arith, w))
    ∙ ap (load_loop n 32 width rest) (omega arith)

load_high :
    (e f g h out : ℕ) (rest : List ℕ)
    → IsByte e
    → IsByte f
    → IsByte g
    → IsByte h
    → out < 2 ^ 32
    → load_loop 4 32 64 (e ∷ f ∷ g ∷ h ∷ rest) out
      ≡ out + (e + f * 2 ^ 8 + g * 2 ^ 16 + h * 2 ^ 24) * 2 ^ 32
load_high e f g h out rest he hf hg hh ho =
    load_round 3 32 64 e out _ ho (omega arith)
    ∙ load_round 2 40 64 f (out + e * 2 ^ 32) _ (omega arith) (omega arith)
    ∙ load_round 1 48 64 g (out + e * 2 ^ 32 + f * 2 ^ 40) _ (omega arith) (omega arith)
    ∙ load_round 0 56 64 h (out + e * 2 ^ 32 + f * 2 ^ 40 + g * 2 ^ 48) rest (omega arith)
        (omega arith)
    ∙ unfold load_loop in omega arith

pub load32-le32 : (v : ℕ) (rest : List ℕ) → IsU32 v → load_loop 4 0 32 (le32 v ++ rest) 0 ≡ v
unfolding load_loop
load32-le32 v rest h =
    load_low 0 32 (byte_at v 0) (byte_at v 8) (byte_at v 16) (byte_at v 24) rest (omega arith)
      (omega arith) (omega arith) (omega arith) (omega arith)
    ∙ omega arith

split32 :
    (v : ℕ)
    → IsU32 v
    → byte_at v 0 + byte_at v 8 * 2 ^ 8 + byte_at v 16 * 2 ^ 16 + byte_at v 24 * 2 ^ 24 ≡ v
split32 v h = omega arith

pub load64-le64 : (v : ℕ) (rest : List ℕ) → IsU64 v → load_loop 8 0 64 (le64 v ++ rest) 0 ≡ v
load64-le64 v rest h =
    load_low 4 64 (byte_at v 0) (byte_at v 8) (byte_at v 16) (byte_at v 24) _ (omega arith)
      (omega arith) (omega arith) (omega arith) (omega arith)
    ∙ load_high (byte_at v 32) (byte_at v 40) (byte_at v 48) (byte_at v 56) _ rest (omega arith)
        (omega arith) (omega arith) (omega arith) (omega arith)
    ∙ omega (arith, split32 (v % 2 ^ 32), split32 (v / 2 ^ 32))

pub load16-le16 : (v : ℕ) → IsU16 v → bit_or (byte_at v 0) (byte_at v 8 * 2 ^ 8) % 2 ^ 16 ≡ v
load16-le16 v h = or16_sum (byte_at v 0) (byte_at v 8) (omega arith) (omega arith) ∙ omega arith
