-- ===== src/Protocol/Reader/Laws.antt =====
-- The reads, against the text that lies in front of the cursor.
use flume_ascend_host_bypass.Prelude.{
  ℕ, ◌+◌, ◌≤◌, ◌<◌, ◌^◌, ◌≡◌, refl, ap, ◌∙◌, sym, true, none, some, List, [], ◌++◌, length, take,
  drop, arith, length-append, take-append, drop-append, append_assoc, length-take, length-drop,
  append-nil,
}
use flume_ascend_host_bypass.Protocol.Words.{IsU32, IsU64, be32, be64, load_u32-be32, load_u64-be64}
use flume_ascend_host_bypass.Protocol.Reader.{
  Reader, M, continue, ◌>>=◌, read_raw, read_u32, read_u64, read_string, done,
}

-- The cursor between the bytes that are read and those that are not.
abbrev pub at : List ℕ → List ℕ → Reader
at front back = record { bytes = front ++ back; offset = length front }

pub record IsValid (r : Reader) : Type 0 where
  pub inside : r.offset ≤ length r.bytes
  pub addressable : length r.bytes < 2 ^ 64

read_raw-IsValid : (n : ℕ) (r : Reader) → IsValid r → IsValid (read_raw n r).1
unfolding read_raw
read_raw-IsValid n r v = ground arith

-- A read of n bytes succeeds exactly when n bytes are left, and its answer has length n.
read_raw_total :
    (n : ℕ) (r : Reader)
    → IsValid r
    → r.offset + n ≤ length r.bytes
    → (raw : List ℕ) × (read_raw n r ≡ (some raw, record r { offset = r.offset + n }))
      × (length raw ≡ n)
unfolding read_raw
read_raw_total n r v h = (
  take n (drop r.offset r.bytes),
  ground arith,
  omega (arith, length-take n (drop r.offset r.bytes), length-drop r.offset r.bytes),
)

read_raw_short :
    (n : ℕ) (r : Reader) → IsValid r → length r.bytes < r.offset + n → read_raw n r ≡ (none, r)
unfolding read_raw
read_raw_short n r v h = ground arith

pub read_raw-at :
    (front xs back : List ℕ)
    → length (front ++ (xs ++ back)) < 2 ^ 64
    → read_raw (length xs) (at front (xs ++ back)) ≡ (some xs, at (front ++ xs) back)
unfolding read_raw
read_raw-at front xs back h = ground (
  arith,
  drop-append front (xs ++ back),
  take-append xs back,
  append_assoc front xs back,
  length-append front (xs ++ back),
  length-append front xs,
  length-append xs back,
)

-- The same, where the length is known and where the number is read on.
module _ {A : Type 0} (n : ℕ) (front xs back : List ℕ) where
  step_at :
      (f : List ℕ → M A)
      → length xs ≡ n
      → length (front ++ (xs ++ back)) < 2 ^ 64
      → (read_raw n >>= f) (at front (xs ++ back)) ≡ f xs (at (front ++ xs) back)
  step_at f e h =
      ap (λ m. (read_raw m >>= f) (at front (xs ++ back))) (sym e)
      ∙ ap (λ r. continue r f) (read_raw-at front xs back h)

pub read_u32-at :
    (front back : List ℕ) (v : ℕ)
    → IsU32 v
    → length (front ++ (be32 v ++ back)) < 2 ^ 64
    → read_u32 (at front (be32 v ++ back)) ≡ (some v, at (front ++ be32 v) back)
unfolding read_u32
read_u32-at front back v hv h =
    step_at 4 front (be32 v) back _ refl h
    ∙ ap (λ k. (some k, at (front ++ be32 v) back)) (load_u32-be32 v [] hv)

pub read_u64-at :
    (front back : List ℕ) (v : ℕ)
    → IsU64 v
    → length (front ++ (be64 v ++ back)) < 2 ^ 64
    → read_u64 (at front (be64 v ++ back)) ≡ (some v, at (front ++ be64 v) back)
unfolding read_u64
read_u64-at front back v hv h =
    step_at 8 front (be64 v) back _ refl h
    ∙ ap (λ k. (some k, at (front ++ be64 v) back)) (load_u64-be64 v [] hv)

-- A text that stands behind its 32-bit length, anywhere in a message that fits the address space,
-- is read as it is, and the reader then stands behind it.
pub read_string-at :
    (front text back : List ℕ)
    → IsU32 (length text)
    → length (front ++ (be32 (length text) ++ (text ++ back))) < 2 ^ 64
    → read_string (at front (be32 (length text) ++ (text ++ back)))
      ≡ (some text, at ((front ++ be32 (length text)) ++ text) back)
unfolding read_string
read_string-at front text back hv h =
    ap (λ r. continue r read_raw) (read_u32-at front (text ++ back) (length text) hv h)
    ∙ read_raw-at (front ++ be32 (length text)) text back
        (rw (append_assoc front (be32 (length text)) (text ++ back)) h)

-- Nothing is left behind the last byte only.
pub done-at : (front : List ℕ) → done (at front []) ≡ true
unfolding done
done-at front = ground (arith, append-nil front)
