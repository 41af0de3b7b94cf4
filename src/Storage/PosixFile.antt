-- ===== src/Storage/PosixFile.antt =====
-- src/storage/posix_file.cc, class PosixFileStore. Its error strings are values of `Error`; the
-- output pointers are results, and the source passes no null one.
pub mod Confinement
pub mod Range
pub mod Bounds
pub mod Balance
use flume_ascend_host_bypass.Prelude.{
  ℕ, zero, suc, ◌+◌, ◌-◌, ◌%◌, ◌^◌, Bool, true, false, not, ◌&&◌, ◌||◌, List, [], ◌∷◌, ◌++◌, length,
  take, get_or, ltb, ◌==◌, ◌!=◌, if◌then◌else◌,
}
use flume_ascend_host_bypass.Prelude.Text.{codes, same_bytes}
use flume_ascend_host_bypass.Protocol.Stream.{Received, got}
use flume_ascend_host_bypass.Storage.System.{
  Allocation, allocated, bad_alloc, length_error, System, Descriptor, handle, errno, Stat, entry,
  Canonical, path, throws,
}

pub data Error : Type 0 where
  path_empty path_contains_nul absolute_path parent_component : Error
  canonicalization_failed : List ℕ → Error
  path_escapes_root : Error
  open_failed fstat_failed : ℕ → Error
  not_a_regular_file : Error
  read_length_allocation_failed : Error
  pread_failed : ℕ → Error
  -- The function returned false and left the message empty.
  no_message : Error

-- The text of a message.
unfoldable pub message : System → Error → List ℕ
message sys path_empty = codes "path is empty"
message sys path_contains_nul = codes "path contains NUL byte"
message sys absolute_path = codes "absolute paths are not allowed"
message sys parent_component = codes "parent path components are not allowed"
message sys (canonicalization_failed what) = codes "path canonicalization failed: " ++ what
message sys path_escapes_root = codes "path escapes storage root"
message sys (open_failed e) = codes "open failed: " ++ sys.strerror e
message sys (fstat_failed e) = codes "fstat failed: " ++ sys.strerror e
message sys not_a_regular_file = codes "path is not a regular file"
message sys read_length_allocation_failed = codes "read length allocation failed"
message sys (pread_failed e) = codes "pread failed: " ++ sys.strerror e
message sys no_message = []

pub data Result {ℓ} (A : Type ℓ) : Type ℓ where
  ok : A → Result A
  err : Error → Result A

abbrev pub slash : ℕ
slash = b'/'

is_empty : List ℕ → Bool
is_empty [] = true
is_empty (b ∷ bs) = false

unfoldable pub contains : ℕ → List ℕ → Bool
contains c [] = false
contains c (b ∷ bs) = (b == c) || contains c bs

-- Whether a component of the path is "..".
unfoldable pub has_parent : List (List ℕ) → Bool
has_parent [] = false
has_parent (part ∷ parts) = same_bytes part (codes "..") || has_parent parts

-- root_str.back() and root_str.pop_back().
last_is : ℕ → List ℕ → Bool
last_is c [] = false
last_is c (b ∷ []) = b == c
last_is c (b ∷ b' ∷ bs) = last_is c (b' ∷ bs)

pop_back : List ℕ → List ℕ
pop_back [] = []
pop_back (b ∷ []) = []
pop_back (b ∷ b' ∷ bs) = b ∷ pop_back (b' ∷ bs)

unfoldable pub strip_slash : List ℕ → List ℕ
unfolding last_is pop_back
strip_slash root = if ltb 1 (length root) && last_is slash root then pop_back root else root

-- The test of the canonical path against the canonical root.
unfoldable pub escapes : List ℕ → List ℕ → Bool
unfolding same_bytes
escapes root full =
    not (same_bytes root (slash ∷ []))
    && (ltb (length full) (length root)
        || (not (same_bytes (take (length root) full) root)
            || (ltb (length root) (length full) && (get_or full (length root) 0 != slash))))

check_root : List ℕ → List ℕ → Result (List ℕ)
unfolding escapes
check_root root full = if escapes root full then err path_escapes_root else ok full

canonicalize : System → List ℕ → List ℕ → Result (List ℕ)
unfolding check_root strip_slash
canonicalize sys root requested = elim (sys.weakly_canonical root) [
  | throws what ↦ err (canonicalization_failed what)
  | path root' ↦ elim (sys.weakly_canonical (sys.join root requested)) [
    | throws what ↦ err (canonicalization_failed what)
    | path full ↦ check_root (strip_slash root') full
  ]
]

unfoldable pub resolve_path : System → List ℕ → List ℕ → Result (List ℕ)
unfolding is_empty contains has_parent canonicalize
resolve_path sys root requested =
    if is_empty requested
    then err path_empty
    else if contains 0 requested
    then err path_contains_nul
    else if sys.is_absolute requested
    then err absolute_path
    else if has_parent (sys.components requested)
    then err parent_component
    else canonicalize sys root requested

pub record OpenedFile : Type 0 where
  pub fd : ℕ
  pub size : ℕ
  pub path : List ℕ

-- The descriptors that the process has obtained and given back, newest first.
pub record Descriptors : Type 0 where
  pub obtained : List ℕ
  pub closed : List ℕ

unfoldable pub obtain : ℕ → Descriptors → Descriptors
obtain fd d = record d { obtained = fd ∷ d.obtained }

unfoldable pub close : ℕ → Descriptors → Descriptors
close fd d = record d { closed = fd ∷ d.closed }

check_stat : List ℕ → ℕ → Stat → Descriptors → Result OpenedFile × Descriptors
unfolding close
check_stat full fd (Stat.failed e) d = (err (fstat_failed e), close fd d)
check_stat full fd (entry false size) d = (err not_a_regular_file, close fd d)
check_stat full fd (entry true size) d = (ok (record { fd = fd; size = size; path = full }), d)

open_resolved : System → Result (List ℕ) → Descriptors → Result OpenedFile × Descriptors
unfolding check_stat obtain
open_resolved sys (err e) d = (err e, d)
open_resolved sys (ok []) d = (err no_message, d)
open_resolved sys (ok (b ∷ bs)) d = elim (sys.open_read_only (b ∷ bs)) [
  | errno e ↦ (err (open_failed e), d)
  | handle n ↦ check_stat (b ∷ bs) n (sys.fstat n) (obtain n d)
]

unfoldable pub open_file : System → List ℕ → List ℕ → Descriptors → Result OpenedFile × Descriptors
unfolding open_resolved resolve_path
open_file sys root requested d = open_resolved sys (resolve_path sys root requested) d

-- The answers of the system may end while a call has not returned: `waiting`.
pub data Read : Type 0 where
  bytes : List ℕ → Read
  fails : Error → Read
  waiting : Read

-- The loop over pread: `buffer` is what has been read, `left` what is still wanted.
unfoldable pub read_loop : List (ℕ → ℕ → Received) → ℕ → ℕ → List ℕ → Read
read_loop asks offset zero buffer = bytes buffer
read_loop [] offset (suc left) buffer = waiting
read_loop (ask ∷ asks) offset (suc left) buffer =
    elim (ask (suc left) ((offset + length buffer) % 2 ^ 64)) [
      | Received.interrupted ↦ read_loop asks offset (suc left) buffer
      | Received.failed e ↦ fails (pread_failed e)
      | got [] ↦ bytes buffer
      | got (b ∷ bs) ↦ read_loop asks offset (left - length bs) (buffer ++ (b ∷ bs))
    ]

-- A length always fits size_t, which has 64 bits here. The source does not catch a length_error, and
-- then Read does not return.
unfoldable pub read : System → ℕ → ℕ → Read
unfolding read_loop
read sys offset size = elim (sys.allocates size) [
  | allocated ↦ read_loop sys.preads offset size []
  | bad_alloc ↦ fails read_length_allocation_failed
  | length_error ↦ waiting
]
