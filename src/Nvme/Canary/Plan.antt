-- ===== src/Nvme/Canary/Plan.antt =====
-- What a plan promises.
use flume_ascend_host_bypass.Prelude.{
  ℕ, ◌+◌, ◌-◌, ◌*◌, ◌/◌, ◌%◌, ◌^◌, ◌≤◌, ◌<◌, ◌≡◌, ◌⊎◌, true, false, arith, sym, ap, ◌∙◌, subst,
}
use native.Mathlib.Nat.{div-add-mod, mul-le-mul_right, mul_comm, add-mul, div-le_self}
use flume_ascend_host_bypass.Protocol.Words.{IsU32, IsU64}
use flume_ascend_host_bypass.Nvme.Canary.{
  CanaryConfig, IoPlan, Result, protected_namespace_prefix_bytes, build_canary_plan,
  is_power_of_two, plan, is_write, is_empty,
}

pub record IsConfig (c : CanaryConfig) : Type 0 where
  pub slba_fits : IsU64 c.slba
  pub bytes_fits : IsU64 c.bytes
  pub lba_bytes_fits : IsU64 c.lba_bytes
  pub namespace_bytes_fits : IsU64 c.namespace_bytes
  pub timeout_fits : IsU32 c.timeout_ms

pub record IsPlan (c : CanaryConfig) (nsid : ℕ) (p : IoPlan) : Type 0 where
  pub start : p.cdw10 + p.cdw11 * 2 ^ 32 ≡ c.slba
  pub blocks : (p.cdw12 + 1) * c.lba_bytes ≡ c.bytes
  pub few_blocks : p.cdw12 < 65536
  pub size : p.data_len ≡ c.bytes
  pub position : p.byte_offset ≡ c.slba * c.lba_bytes
  pub inside : p.byte_offset + c.bytes ≤ c.namespace_bytes

-- The facts that the tests leave, once each.
passed :
    (c : CanaryConfig) (nsid : ℕ) {p : IoPlan}
    → build_canary_plan c nsid ≡ Result.planned p
    → (c.bytes < 2 ^ 32)
      × ((c.bytes % c.lba_bytes ≡ 0)
          × ((512 ≤ c.lba_bytes)
              × ((c.bytes / c.lba_bytes ≤ 65536)
                  × ((c.namespace_bytes % c.lba_bytes ≡ 0)
                      × ((c.slba + c.bytes / c.lba_bytes ≤ c.namespace_bytes / c.lba_bytes)
                          × ((1 ≤ c.bytes / c.lba_bytes)
                              × (p ≡ plan c nsid (c.bytes / c.lba_bytes))))))))
unfolding build_canary_plan
passed c nsid h = ground arith

-- The range in bytes, from the range in blocks of `l` bytes.
range_bytes : (slba blocks total l : ℕ) → slba + blocks ≤ total → slba * l + blocks * l ≤ total * l
range_bytes slba blocks total l h = omega (arith, mul-le-mul_right l h, add-mul slba blocks l)

whole : (n l : ℕ) → n % l ≡ 0 → n / l * l ≡ n
whole n l h = omega (arith, div-add-mod n l, mul_comm l (n / l))

plan-IsPlan :
    (c : CanaryConfig) (nsid : ℕ)
    → IsConfig c
    → c.bytes < 2 ^ 32
    → c.bytes % c.lba_bytes ≡ 0
    → c.bytes / c.lba_bytes ≤ 65536
    → c.namespace_bytes % c.lba_bytes ≡ 0
    → c.slba + c.bytes / c.lba_bytes ≤ c.namespace_bytes / c.lba_bytes
    → 1 ≤ c.bytes / c.lba_bytes
    → IsPlan c nsid (plan c nsid (c.bytes / c.lba_bytes))
unfolding plan
plan-IsPlan c nsid v small aligned few namespace_aligned range some_block =
    let n =
      range_bytes c.slba (c.bytes / c.lba_bytes) (c.namespace_bytes / c.lba_bytes) c.lba_bytes
        range in
    let b = whole c.bytes c.lba_bytes aligned in
    let t = whole c.namespace_bytes c.lba_bytes namespace_aligned in
    let f = v.namespace_bytes_fits in
    let p : c.slba * c.lba_bytes % 2 ^ 64 ≡ c.slba * c.lba_bytes = omega (arith, n, b, t, f) in
    let s = v.slba_fits in
    let e : (c.bytes / c.lba_bytes - 1) % 2 ^ 32 + 1 ≡ c.bytes / c.lba_bytes = omega arith in
    record {
      start = omega (arith, s);
      blocks = ap (λ x. x * c.lba_bytes) e ∙ b;
      few_blocks = omega arith;
      size = omega arith;
      position = p;
      inside = omega (arith, n, b, t, p);
    }

-- A plan that BuildCanaryPlan makes of a configuration whose fields fit their types has a start
-- block whose halves recombine to the one asked for, a block count of at most 65536, sent less one,
-- that covers exactly the bytes asked for, a byte offset that has not wrapped, and a range that
-- lies inside the namespace.
pub build_canary_plan-IsPlan :
    (c : CanaryConfig) (nsid : ℕ) {p : IoPlan}
    → IsConfig c
    → build_canary_plan c nsid ≡ Result.planned p
    → IsPlan c nsid p
build_canary_plan-IsPlan c nsid v h =
    let (small, (aligned, (_, (few, (namespace_aligned, (range, (some_block, e))))))) =
      passed c nsid h in
    subst (IsPlan c nsid) (sym e)
      (plan-IsPlan c nsid v small aligned few namespace_aligned range some_block)

-- A request that may be served.
pub record IsServable (c : CanaryConfig) (nsid : ℕ) : Type 0 where
  pub named : is_empty c.namespace_path ≡ false
  pub some_nsid : 1 ≤ nsid
  pub some_timeout : 1 ≤ c.timeout_ms
  pub bytes_fit : c.bytes < 2 ^ 32
  pub block_size : 512 ≤ c.lba_bytes
  pub power : is_power_of_two c.lba_bytes ≡ true
  pub aligned : c.bytes % c.lba_bytes ≡ 0
  pub some_block : 1 ≤ c.bytes / c.lba_bytes
  pub few_blocks : c.bytes / c.lba_bytes ≤ 65536
  pub namespace_aligned : c.namespace_bytes % c.lba_bytes ≡ 0
  pub inside : c.slba + c.bytes / c.lba_bytes ≤ c.namespace_bytes / c.lba_bytes
  pub harmless :
      (is_write c.direction ≡ false)
      ⊎ ((c.destructive_write_confirmed ≡ true)
          × (protected_namespace_prefix_bytes ≤ c.slba * c.lba_bytes))

-- Every configuration whose fields fit their types, with a name, an NSID and a timeout, a
-- power-of-two block size of at least 512, a whole number of blocks between 1 and 65536, a whole
-- namespace that holds the range, and, where it writes, a confirmation and a start behind the first
-- mebibyte, is planned.
pub build_canary_plan_total :
    (c : CanaryConfig) (nsid : ℕ)
    → IsConfig c
    → IsServable c nsid
    → build_canary_plan c nsid ≡ Result.planned (plan c nsid (c.bytes / c.lba_bytes))
unfolding build_canary_plan
build_canary_plan_total c nsid v s =
    let n =
      range_bytes c.slba (c.bytes / c.lba_bytes) (c.namespace_bytes / c.lba_bytes) c.lba_bytes
        s.inside in
    let b = whole c.bytes c.lba_bytes s.aligned in
    let t = whole c.namespace_bytes c.lba_bytes s.namespace_aligned in
    let f = v.namespace_bytes_fits in
    let p : c.slba * c.lba_bytes % 2 ^ 64 ≡ c.slba * c.lba_bytes = omega (arith, n, b, t, f) in
    let one : c.lba_bytes ≤ c.namespace_bytes =
      omega (arith, n, b, t, mul-le-mul_right c.lba_bytes s.some_block) in
    let last : c.slba + c.bytes / c.lba_bytes < 2 ^ 64 =
      omega (arith, f, s.inside, div-le_self c.namespace_bytes c.lba_bytes) in
    ground (
      arith, p, one, last, s.named, s.some_nsid, s.some_timeout, s.bytes_fit, s.block_size, s.power,
      s.aligned, s.some_block, s.few_blocks, s.namespace_aligned, s.inside, s.harmless,
    )
