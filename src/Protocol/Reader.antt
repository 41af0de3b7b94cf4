-- ===== src/Protocol/Reader.antt =====
-- src/protocol/framing.cc, class Reader: a cursor over a byte vector. A read answers with a value or
-- fails, and either way leaves a cursor: ReadString that fails behind its length has moved it.
-- A read's output pointer is its result; the source passes no null one.
pub mod Laws
use flume_ascend_host_bypass.Prelude.{
  ℕ, ◌+◌, ◌-◌, ◌%◌, ◌^◌, Bool, Option, none, some, List, length, take, drop, ltb, ◌==◌,
  if◌then◌else◌,
}
use flume_ascend_host_bypass.Protocol.Words.{load_u16, load_u32, load_u64}

pub record Reader : Type 0 where
  pub bytes : List ℕ
  pub offset : ℕ

abbrev pub M : Type 0 → Type 0
M A = Reader → Option A × Reader

abbrev pub continue : {A B : Type 0} → Option A × Reader → (A → M B) → Option B × Reader
continue (none, r) f = (none, r)
continue (some a, r) f = f a r

infixl 5 ◌>>=◌
abbrev pub ◌>>=◌ : {A B : Type 0} → M A → (A → M B) → M B
◌>>=◌ m f r = continue (m r) f

abbrev pub return : {A : Type 0} → A → M A
return a r = (some a, r)

unfoldable pub reader : List ℕ → Reader
reader bytes = record { bytes = bytes; offset = 0 }

-- The difference and the sum are of type size_t.
unfoldable pub read_raw : ℕ → M (List ℕ)
read_raw size r = if ltb ((length r.bytes + 2 ^ 64 - r.offset) % 2 ^ 64) size then (none, r) else (
  some (take size (drop r.offset r.bytes)),
  record r { offset = (r.offset + size) % 2 ^ 64 },
)

unfoldable pub read_u16 : M ℕ
read_u16 = do raw ← read_raw 2; return (load_u16 raw)

unfoldable pub read_u32 : M ℕ
read_u32 = do raw ← read_raw 4; return (load_u32 raw)

unfoldable pub read_u64 : M ℕ
read_u64 = do raw ← read_raw 8; return (load_u64 raw)

unfoldable pub read_string : M (List ℕ)
read_string = do size ← read_u32; read_raw size

unfoldable pub read_bytes : ℕ → M (List ℕ)
read_bytes size = read_raw size

unfoldable pub done : Reader → Bool
done r = r.offset == length r.bytes
