-- ===== src/Protocol/Words.antt =====
-- src/protocol/framing.cc: numbers as bytes, most significant byte first. A byte vector is a list
-- of numbers below 256; shifts are written as products and quotients, with the width of the type.
use flume_ascend_host_bypass.Prelude.{
  ℕ, zero, suc, ◌+◌, ◌*◌, ◌/◌, ◌%◌, ◌^◌, ◌<◌, ◌≡◌, ap, ◌∙◌, List, [], ◌∷◌, ◌++◌, bit_or, arith,
  get_or, drop, append_assoc,
}
use flume_ascend_host_bypass.Prelude.Bits.{bit_or_above}

abbrev pub IsByte : ℕ → Type 0
IsByte b = b < 256

abbrev pub IsU16 : ℕ → Type 0
IsU16 v = v < 2 ^ 16

abbrev pub IsU32 : ℕ → Type 0
IsU32 v = v < 2 ^ 32

abbrev pub IsU64 : ℕ → Type 0
IsU64 v = v < 2 ^ 64

-- `(value >> shift) & 0xff`
abbrev pub byte_at : ℕ → ℕ → ℕ
byte_at value shift = value / 2 ^ shift % 256

unfoldable pub append_u16 : List ℕ → ℕ → List ℕ
append_u16 out value = out ++ (byte_at value 8 ∷ byte_at value 0 ∷ [])

unfoldable pub append_u32 : List ℕ → ℕ → List ℕ
append_u32 out value =
    out ++ (byte_at value 24 ∷ byte_at value 16 ∷ byte_at value 8 ∷ byte_at value 0 ∷ [])

-- The rounds left are counted down: the shift is 8 times the rounds that follow.
unfoldable pub append_u64_loop : ℕ → List ℕ → ℕ → List ℕ
append_u64_loop zero out value = out
append_u64_loop (suc n) out value = append_u64_loop n (out ++ (byte_at value (8 * n) ∷ [])) value

unfoldable pub append_u64 : List ℕ → ℕ → List ℕ
unfolding append_u64_loop
append_u64 out value = append_u64_loop 8 out value

unfoldable pub load_u16 : List ℕ → ℕ
load_u16 raw = bit_or (get_or raw 0 0 * 2 ^ 8) (get_or raw 1 0) % 2 ^ 16

unfoldable pub load_u32 : List ℕ → ℕ
load_u32 raw =
    bit_or
      (bit_or (bit_or (get_or raw 0 0 * 2 ^ 24 % 2 ^ 32) (get_or raw 1 0 * 2 ^ 16 % 2 ^ 32))
        (get_or raw 2 0 * 2 ^ 8 % 2 ^ 32))
      (get_or raw 3 0)

load_u64_loop : ℕ → List ℕ → ℕ → ℕ
load_u64_loop zero raw value = value
load_u64_loop (suc n) raw value =
    load_u64_loop n (drop 1 raw) (bit_or (value * 2 ^ 8 % 2 ^ 64) (get_or raw 0 0))

unfoldable pub load_u64 : List ℕ → ℕ
unfolding load_u64_loop
load_u64 raw = load_u64_loop 8 raw 0

-- The bytes that the appends add, as a list.
abbrev pub be16 : ℕ → List ℕ
be16 v = byte_at v 8 ∷ byte_at v 0 ∷ []

abbrev pub be32 : ℕ → List ℕ
be32 v = byte_at v 24 ∷ byte_at v 16 ∷ byte_at v 8 ∷ byte_at v 0 ∷ []

abbrev pub be64 : ℕ → List ℕ
be64 v = byte_at v 56 ∷ byte_at v 48 ∷ byte_at v 40 ∷ byte_at v 32 ∷ be32 v

append_u64-be64 : (out : List ℕ) (v : ℕ) → append_u64 out v ≡ out ++ be64 v
unfolding append_u64
append_u64-be64 out v = simp append_assoc

-- What the loads read, as sums.
load_u16-sum :
    (a b : ℕ) (rest : List ℕ) → IsByte a → IsByte b → load_u16 (a ∷ b ∷ rest) ≡ a * 2 ^ 8 + b
unfolding load_u16
load_u16-sum a b rest ha hb = ground (arith, bit_or_above 8 a b)

load_u32-sum :
    (a b c d : ℕ) (rest : List ℕ)
    → IsByte a
    → IsByte b
    → IsByte c
    → IsByte d
    → load_u32 (a ∷ b ∷ c ∷ d ∷ rest) ≡ a * 2 ^ 24 + b * 2 ^ 16 + c * 2 ^ 8 + d
unfolding load_u32
load_u32-sum a b c d rest ha hb hc hd = ground (
  arith,
  bit_or_above 24 a (b * 2 ^ 16),
  bit_or_above 16 (a * 2 ^ 8 + b) (c * 2 ^ 8),
  bit_or_above 8 (a * 2 ^ 16 + b * 2 ^ 8 + c) d,
)

load_u64_round : (v b : ℕ) → v < 2 ^ 56 → IsByte b → bit_or (v * 2 ^ 8 % 2 ^ 64) b ≡ v * 2 ^ 8 + b
load_u64_round v b hv hb = ground (arith, bit_or_above 8 v b)

-- One round: the value read so far moves up by a byte.
load_u64_loop_round :
    (n v b : ℕ) (rest : List ℕ)
    → v < 2 ^ 56
    → IsByte b
    → load_u64_loop (suc n) (b ∷ rest) v ≡ load_u64_loop n rest (v * 2 ^ 8 + b)
unfolding load_u64_loop
load_u64_loop_round n v b rest hv hb = ap (load_u64_loop n rest) (load_u64_round v b hv hb)

load_u64_half :
    (n v a b c d : ℕ) (rest : List ℕ)
    → v < 2 ^ 32
    → IsByte a
    → IsByte b
    → IsByte c
    → IsByte d
    → load_u64_loop (suc (suc (suc (suc n)))) (a ∷ b ∷ c ∷ d ∷ rest) v
      ≡ load_u64_loop n rest (v * 2 ^ 32 + (a * 2 ^ 24 + b * 2 ^ 16 + c * 2 ^ 8 + d))
load_u64_half n v a b c d rest hv ha hb hc hd =
    load_u64_loop_round _ v a _ (omega arith) ha
    ∙ load_u64_loop_round _ (v * 2 ^ 8 + a) b _ (omega arith) hb
    ∙ load_u64_loop_round _ ((v * 2 ^ 8 + a) * 2 ^ 8 + b) c _ (omega arith) hc
    ∙ load_u64_loop_round n (((v * 2 ^ 8 + a) * 2 ^ 8 + b) * 2 ^ 8 + c) d rest (omega arith) hd
    ∙ ap (load_u64_loop n rest) (omega arith)

load_u64-sum :
    (a b c d e f g h : ℕ) (rest : List ℕ)
    → IsByte a
    → IsByte b
    → IsByte c
    → IsByte d
    → IsByte e
    → IsByte f
    → IsByte g
    → IsByte h
    → load_u64 (a ∷ b ∷ c ∷ d ∷ e ∷ f ∷ g ∷ h ∷ rest)
      ≡ (a * 2 ^ 24 + b * 2 ^ 16 + c * 2 ^ 8 + d) * 2 ^ 32
        + (e * 2 ^ 24 + f * 2 ^ 16 + g * 2 ^ 8 + h)
unfolding load_u64
load_u64-sum a b c d e f g h rest ha hb hc hd he hf hg hh =
    load_u64_half 4 0 a b c d (e ∷ f ∷ g ∷ h ∷ rest) (omega arith) ha hb hc hd
    ∙ load_u64_half 0 _ e f g h rest (omega arith) he hf hg hh
    ∙ omega arith

pub load_u16-be16 : (v : ℕ) (rest : List ℕ) → IsU16 v → load_u16 (be16 v ++ rest) ≡ v
load_u16-be16 v rest h =
    load_u16-sum (byte_at v 8) (byte_at v 0) rest (omega arith) (omega arith) ∙ omega arith

pub load_u32-be32 : (v : ℕ) (rest : List ℕ) → IsU32 v → load_u32 (be32 v ++ rest) ≡ v
load_u32-be32 v rest h =
    load_u32-sum (byte_at v 24) (byte_at v 16) (byte_at v 8) (byte_at v 0) rest (omega arith)
      (omega arith) (omega arith) (omega arith)
    ∙ omega arith

low_half :
    (v : ℕ)
    → IsU32 v
    → byte_at v 24 * 2 ^ 24 + byte_at v 16 * 2 ^ 16 + byte_at v 8 * 2 ^ 8 + byte_at v 0 ≡ v
low_half v h = omega arith

pub load_u64-be64 : (v : ℕ) (rest : List ℕ) → IsU64 v → load_u64 (be64 v ++ rest) ≡ v
load_u64-be64 v rest h =
    load_u64-sum (byte_at v 56) (byte_at v 48) (byte_at v 40) (byte_at v 32) (byte_at v 24)
      (byte_at v 16) (byte_at v 8) (byte_at v 0) rest (omega arith) (omega arith) (omega arith)
      (omega arith) (omega arith) (omega arith) (omega arith) (omega arith)
    ∙ omega (arith, low_half (v / 2 ^ 32), low_half (v % 2 ^ 32))
