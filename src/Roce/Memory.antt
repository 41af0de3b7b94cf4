-- ===== src/Roce/Memory.antt =====
-- src/roce_storage/storage_backend.cc: the backend that keeps its bytes in memory. A refusal has one
-- message for each operation, and is `none` here.
pub mod Laws
use flume_ascend_host_bypass.Prelude.{
  ℕ, zero, suc, ◌+◌, ◌-◌, ◌*◌, ◌%◌, Bool, ◌&&◌, Option, none, some, List, [], ◌∷◌, ◌++◌, length,
  take, drop, leb, if◌then◌else◌,
}

unfoldable pub valid_range : ℕ → ℕ → ℕ → Bool
valid_range size offset len = leb offset size && leb len (size - offset)

-- The bytes of a new backend, from an index on.
pattern_from : ℕ → ℕ → List ℕ
pattern_from index zero = []
pattern_from index (suc n) = (index * 29 + 11) % 256 ∷ pattern_from (suc index) n

unfoldable pub memory_storage_backend : ℕ → List ℕ
unfolding pattern_from
memory_storage_backend bytes = pattern_from 0 bytes

unfoldable pub memory_read : List ℕ → ℕ → ℕ → Option (List ℕ)
unfolding valid_range
memory_read bytes offset len =
    if valid_range (length bytes) offset len then some (take len (drop offset bytes)) else none

unfoldable pub memory_write : List ℕ → ℕ → List ℕ → Option (List ℕ)
unfolding valid_range
memory_write bytes offset src =
    if valid_range (length bytes) offset (length src)
    then some (take offset bytes ++ (src ++ drop (offset + length src) bytes))
    else none
