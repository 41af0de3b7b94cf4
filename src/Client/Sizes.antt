-- ===== src/Client/Sizes.antt =====
-- src/core/client.cc: sizes of elements, and products that do not wrap. size_t has 64 bits.
use flume_ascend_host_bypass.Prelude.{
  ℕ, zero, suc, ◌∙◌, ◌*◌, ◌-◌, ◌/◌, ◌%◌, ◌^◌, ◌<◌, ◌≤◌, ◌≡◌, ◌&&◌, ◌||◌, Option, none, some, ltb,
  ◌==◌, ◌!=◌, if◌then◌else◌, arith,
}
use native.Mathlib.Nat.{mul-le-mul_right, div-add-mod', mod-eq_of_lt}
use flume_ascend_host_bypass.Client.DataType

abbrev pub size_max : ℕ
size_max = 2 ^ 64 - 1

unfoldable pub data_type_bytes : ℕ → ℕ
data_type_bytes t =
    if (t == DataType.int8) || (t == DataType.uint8)
    then 1
    else if (t == DataType.int16)
        || ((t == DataType.uint16) || ((t == DataType.fp16) || (t == DataType.bfp16)))
    then 2
    else if (t == DataType.int32) || ((t == DataType.uint32) || (t == DataType.fp32))
    then 4
    else if (t == DataType.int64) || ((t == DataType.uint64) || (t == DataType.fp64))
    then 8
    else 0

unfoldable pub checked_bytes : ℕ → ℕ → Option ℕ
checked_bytes count data_type =
    let elem = data_type_bytes data_type in
    if count == 0
    then none
    else if (elem == 0) || ltb (size_max / elem) count
    then none
    else some (count * elem % 2 ^ 64)

unfoldable pub checked_mul : ℕ → ℕ → Option ℕ
checked_mul lhs rhs =
    if (rhs != 0) && ltb (size_max / rhs) lhs then none else some (lhs * rhs % 2 ^ 64)

-- A factor that a quotient allows gives a product that fits.
product_fits : (a b : ℕ) → a ≤ size_max / b → a * b < 2 ^ 64
product_fits a b h = omega (arith, mul-le-mul_right b h, div-add-mod' size_max b)

checked_count :
    (count data_type : ℕ) {out : ℕ}
    → checked_bytes count data_type ≡ some out
    → (count ≤ size_max / data_type_bytes data_type)
      × (out ≡ count * data_type_bytes data_type % 2 ^ 64)
      × (1 ≤ count)
      × (1 ≤ data_type_bytes data_type)
unfolding checked_bytes
checked_count count data_type h = ground arith

-- A size that is computed is the exact product, fits size_t and is not 0.
checked_bytes-exact :
    (count data_type : ℕ) {out : ℕ}
    → checked_bytes count data_type ≡ some out
    → (out ≡ count * data_type_bytes data_type) × (out < 2 ^ 64)
checked_bytes-exact count data_type {out} h =
    let (a, b, c, d) = checked_count count data_type h in
    let p = product_fits count (data_type_bytes data_type) a in
    let e = b ∙ mod-eq_of_lt p in (e, omega (arith, e, p))

checked_mul-exact : (lhs rhs : ℕ) {out : ℕ} → checked_mul lhs rhs ≡ some out → out ≡ lhs * rhs
unfolding checked_mul
checked_mul-exact lhs zero h = ground (arith, h)
checked_mul-exact lhs (suc rhs) h = ground (arith, h, product_fits lhs (suc rhs))
