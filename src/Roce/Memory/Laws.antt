-- ===== src/Roce/Memory/Laws.antt =====
-- Reads after writes.
use flume_ascend_host_bypass.Prelude.{
  ℕ, zero, suc, ◌+◌, ◌-◌, ◌≤◌, ◌<◌, ◌≡◌, refl, ap, ◌∙◌, ◌&&◌, none, some, List, [], ◌∷◌, ◌++◌,
  length, take, drop, get_or, leb, ltb, if◌then◌else◌, arith, length-take, length-drop,
  length-append,
}
use flume_ascend_host_bypass.Roce.Memory.{memory_write}

get_or-append :
    (xs ys : List ℕ) (i : ℕ)
    → get_or (xs ++ ys) i 0
      ≡ (if ltb i (length xs) then get_or xs i 0 else get_or ys (i - length xs) 0)
get_or-append [] ys i = ground arith
get_or-append (x ∷ xs) ys zero = ground arith
get_or-append (x ∷ xs) ys (suc i) = ground (arith, get_or-append xs ys i)

get_or-take : (n i : ℕ) (xs : List ℕ) → i < n → get_or (take n xs) i 0 ≡ get_or xs i 0
get_or-take zero i xs h = absurd (omega arith)
get_or-take (suc n) i [] h = ground arith
get_or-take (suc n) zero (x ∷ xs) h = refl
get_or-take (suc n) (suc i) (x ∷ xs) h = get_or-take n i xs (omega arith)

suc_sum : (n i : ℕ) → suc (n + i) ≡ suc n + i
suc_sum n i = omega arith

get_or-drop : (n i : ℕ) (xs : List ℕ) → get_or (drop n xs) i 0 ≡ get_or xs (n + i) 0
get_or-drop zero i xs = ap (λ k. get_or xs k 0) (omega arith)
get_or-drop (suc n) i [] = ground arith
get_or-drop (suc n) i (x ∷ xs) = get_or-drop n i xs ∙ ap (λ k. get_or (x ∷ xs) k 0) (suc_sum n i)

splice : (bytes : List ℕ) (offset : ℕ) (src : List ℕ) → List ℕ
splice bytes offset src = take offset bytes ++ (src ++ drop (offset + length src) bytes)

rest : (offset n i : ℕ) → offset + n ≤ i → offset + n + (i - offset - n) ≡ i
rest offset n i h = omega arith

get_or-splice :
    (bytes src : List ℕ) (offset i : ℕ)
    → offset + length src ≤ length bytes
    → get_or (splice bytes offset src) i 0 ≡ (
        if leb offset i && ltb i (offset + length src)
        then get_or src (i - offset) 0
        else get_or bytes i 0)
unfolding splice
get_or-splice bytes src offset i h = ground (
  arith,
  length-take offset bytes,
  get_or-append (take offset bytes) (src ++ drop (offset + length src) bytes) i,
  get_or-append src (drop (offset + length src) bytes) (i - offset),
  get_or-take offset i bytes,
  get_or-drop (offset + length src) (i - offset - length src) bytes,
  rest offset (length src) i,
)

length-splice :
    (bytes src : List ℕ) (offset : ℕ)
    → offset + length src ≤ length bytes
    → length (splice bytes offset src) ≡ length bytes
unfolding splice
length-splice bytes src offset h = omega (
  arith,
  length-append (take offset bytes) (src ++ drop (offset + length src) bytes),
  length-append src (drop (offset + length src) bytes),
  length-take offset bytes,
  length-drop (offset + length src) bytes,
)

written :
    (bytes : List ℕ) (offset : ℕ) (src : List ℕ)
    → offset + length src ≤ length bytes
    → memory_write bytes offset src ≡ some (splice bytes offset src)
unfolding memory_write splice
written bytes offset src h = ground arith

-- A write to memory in a range that lies inside succeeds, keeps the size, and leaves at each index
-- the byte written there if it is in the range, and else the byte that was there.
pub memory_write-bytes :
    (bytes : List ℕ) (offset : ℕ) (src : List ℕ) (i : ℕ)
    → offset + length src ≤ length bytes
    → (after : List ℕ) × (memory_write bytes offset src ≡ some after)
      × (length after ≡ length bytes)
      × (get_or after i 0 ≡ (
          if leb offset i && ltb i (offset + length src)
          then get_or src (i - offset) 0
          else get_or bytes i 0))
memory_write-bytes bytes offset src i h = (
  splice bytes offset src,
  written bytes offset src h,
  length-splice bytes src offset h,
  get_or-splice bytes src offset i h,
)

-- A write in a range that ends outside is refused.
memory_write-none :
    (bytes : List ℕ) (offset : ℕ) (src : List ℕ)
    → length bytes < offset + length src
    → memory_write bytes offset src ≡ none
unfolding memory_write
memory_write-none bytes offset src h = ground arith
