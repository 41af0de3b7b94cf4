-- ===== src/Storage/PosixFile/Balance.antt =====
-- The descriptors that Open obtains and gives back.
use flume_ascend_host_bypass.Prelude.{
  ℕ, ◌+◌, ◌≡◌, true, false, List, [], ◌∷◌, arith, ◌==◌, if◌then◌else◌,
}
use flume_ascend_host_bypass.Storage.System.{System, Descriptor, handle, errno, Stat, entry}
use flume_ascend_host_bypass.Storage.PosixFile.{
  OpenedFile, Descriptors, obtain, Result, ok, err, open_failed, open_file, open_resolved,
  check_stat, resolve_path,
}

-- How often a descriptor occurs.
abbrev pub count : ℕ → List ℕ → ℕ
count x [] = 0
count x (y ∷ ys) = (if x == y then 1 else 0) + count x ys

abbrev pub taken : ℕ → Result OpenedFile → ℕ
taken x (ok file) = if x == file.fd then 1 else 0
taken x (err e) = 0

abbrev Balance : ℕ → Descriptors → Result OpenedFile × Descriptors → Type 0
Balance x d r =
    count x r.1.obtained + count x d.closed ≡ count x d.obtained + count x r.1.closed + taken x r.0

stat-Balance :
    (x : ℕ) (d : Descriptors) (full : List ℕ) (n : ℕ) (s : Stat)
    → Balance x d (check_stat full n s (obtain n d))
unfolding check_stat obtain
stat-Balance x d full n (Stat.failed e) = omega arith
stat-Balance x d full n (entry false size) = omega arith
stat-Balance x d full n (entry true size) = omega arith

descriptor-Balance :
    (x : ℕ) (d : Descriptors) (full : List ℕ) (stat : ℕ → Stat) (h : Descriptor)
    → Balance x d (elim h [
      | errno e ↦ (err (open_failed e), d)
      | handle n ↦ check_stat full n (stat n) (obtain n d)
    ])
descriptor-Balance x d full stat (errno e) = omega arith
descriptor-Balance x d full stat (handle n) = stat-Balance x d full n (stat n)

resolved-Balance :
    (sys : System) (d : Descriptors) (x : ℕ) (p : Result (List ℕ))
    → Balance x d (open_resolved sys p d)
unfolding open_resolved
resolved-Balance sys d x (err e) = omega arith
resolved-Balance sys d x (ok []) = omega arith
resolved-Balance sys d x (ok (b ∷ bs)) =
    descriptor-Balance x d (b ∷ bs) sys.fstat (sys.open_read_only (b ∷ bs))

-- Open obtains one descriptor more than it closes where it succeeds, that of the file it returns,
-- and as many as it closes where it fails.
pub open_file_balance :
    (sys : System) (root path : List ℕ) (d : Descriptors) (x : ℕ)
    → let r = open_file sys root path d in
      count x r.1.obtained + count x d.closed
      ≡ count x d.obtained + count x r.1.closed + taken x r.0
unfolding open_file
open_file_balance sys root path d x = resolved-Balance sys d x (resolve_path sys root path)
