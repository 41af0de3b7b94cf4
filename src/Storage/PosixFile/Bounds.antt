-- ===== src/Storage/PosixFile/Bounds.antt =====
-- Messages are short where the texts of the system are, and reads are no longer than asked for.
use flume_ascend_host_bypass.Prelude.{
  ℕ, zero, suc, ◌-◌, ◌%◌, All, ◌+◌, ◌^◌, ◌≤◌, ◌≡◌, refl, true, false, List, [], ◌∷◌, ◌++◌, length,
  arith, length-append, Bool-cases, inl, inr,
}
use flume_ascend_host_bypass.Prelude.Text.{codes}
use flume_ascend_host_bypass.Storage.System.{
  System, Descriptor, handle, errno, Stat, entry, Canonical, path, throws,
}
use flume_ascend_host_bypass.Protocol.Stream.{Received, got}
use flume_ascend_host_bypass.Storage.PosixFile.{
  OpenedFile, Descriptors, obtain, Result, ok, err, Error, bytes, waiting, open_failed, open_file,
  open_resolved, check_stat, resolve_path, canonicalize, check_root, message, pread_failed,
  fstat_failed, canonicalization_failed, read, Read, fails, read_loop, escapes, strip_slash,
}

abbrev pub text_limit : ℕ
text_limit = 2 ^ 20

-- The texts of the system are at most a mebibyte long.
pub record IsBrief (sys : System) : Type 0 where
  pub strerror_brief : (e : ℕ) → length (sys.strerror e) ≤ text_limit
  pub what_brief :
      (p what : List ℕ) → sys.weakly_canonical p ≡ throws what → length what ≤ text_limit

-- pread does not answer with more than it was asked for.
abbrev pub IsBounded : (ℕ → ℕ → Received) → Type 0
IsBounded ask = (n offset : ℕ) (chunk : List ℕ) → ask n offset ≡ got chunk → length chunk ≤ n

abbrev pub Short : System → Error → Type 0
Short sys e = length (message sys e) ≤ text_limit + 64

-- A result whose message, if it has one, is short.
abbrev pub ShortResult {ℓ} : {A : Type ℓ} → System → Result A → Type 0
ShortResult sys (ok a) = Unit {0}
ShortResult sys (err e) = Short sys e

-- What a read returns: a short message, or at most as many bytes as were asked for.
abbrev pub ShortRead : System → ℕ → Read → Type 0
ShortRead sys size (bytes out) = length out ≤ size
ShortRead sys size (fails e) = Short sys e
ShortRead sys size waiting = Unit {0}

module _ {sys : System} (brief : IsBrief sys) where
  open_failed-Short : (n : ℕ) → Short sys (open_failed n)
  unfolding message
  open_failed-Short n =
      omega (arith, length-append (codes "open failed: ") (sys.strerror n), brief.strerror_brief n)

  fstat_failed-Short : (n : ℕ) → Short sys (fstat_failed n)
  unfolding message
  fstat_failed-Short n =
      omega (arith, length-append (codes "fstat failed: ") (sys.strerror n), brief.strerror_brief n)

  pub pread_failed-Short : (n : ℕ) → Short sys (pread_failed n)
  unfolding message
  pread_failed-Short n =
      omega (arith, length-append (codes "pread failed: ") (sys.strerror n), brief.strerror_brief n)

  what-Short :
      (p what : List ℕ)
      → sys.weakly_canonical p ≡ throws what
      → Short sys (canonicalization_failed what)
  unfolding message
  what-Short p what e = omega (
    arith,
    length-append (codes "path canonicalization failed: ") what,
    brief.what_brief p what e,
  )

  check_root_short : (root full : List ℕ) → ShortResult sys (check_root root full)
  unfolding check_root message
  check_root_short root full = elim (Bool-cases (escapes root full)) [
    | inl out ↦ rw (out, check_root) (omega arith)
    | inr inside ↦ rw (inside, check_root) tt
  ]

  below-Short :
      (base : List ℕ) (c : Canonical)
      → ((what : List ℕ) → c ≡ throws what → Short sys (canonicalization_failed what))
      → ShortResult sys (elim c [
        | throws what ↦ err (canonicalization_failed what)
        | path full ↦ check_root (strip_slash base) full
      ])
  below-Short base (throws what) s = s what refl
  below-Short base (path full) s = check_root_short (strip_slash base) full

  root-Short :
      (c joined : Canonical)
      → ((what : List ℕ) → c ≡ throws what → Short sys (canonicalization_failed what))
      → ((what : List ℕ) → joined ≡ throws what → Short sys (canonicalization_failed what))
      → ShortResult sys (elim c [
        | throws what ↦ err (canonicalization_failed what)
        | path base ↦ elim joined [
          | throws what ↦ err (canonicalization_failed what)
          | path full ↦ check_root (strip_slash base) full
        ]
      ])
  root-Short (throws what) joined s t = s what refl
  root-Short (path base) joined s t = below-Short base joined t

  resolve_path_short : (root requested : List ℕ) → ShortResult sys (resolve_path sys root requested)
  unfolding resolve_path canonicalize message
  resolve_path_short root requested = ground (
    arith,
    root-Short (sys.weakly_canonical root) (sys.weakly_canonical (sys.join root requested))
        (what-Short root) (what-Short (sys.join root requested)),
  )

  stat_short :
      (full : List ℕ) (n : ℕ) (s : Stat) (d : Descriptors)
      → ShortResult sys (check_stat full n s d).0
  unfolding check_stat message
  stat_short full n (Stat.failed e) d = unfold message in fstat_failed-Short e
  stat_short full n (entry false size) d = omega arith
  stat_short full n (entry true size) d = tt

  descriptor_short :
      (full : List ℕ) (stat : ℕ → Stat) (h : Descriptor) (d : Descriptors)
      → ShortResult sys
          (elim h as (λ x. Result OpenedFile × Descriptors) [
            | errno e ↦ (err (open_failed e), d)
            | handle n ↦ check_stat full n (stat n) (obtain n d)
          ]).0
  descriptor_short full stat (errno e) d = open_failed-Short e
  descriptor_short full stat (handle n) d = stat_short full n (stat n) (obtain n d)

  resolved_short :
      (p : Result (List ℕ)) (d : Descriptors)
      → ShortResult sys p
      → ShortResult sys (open_resolved sys p d).0
  unfolding open_resolved message
  resolved_short (err e) d s = s
  resolved_short (ok []) d s = omega arith
  resolved_short (ok (b ∷ bs)) d s =
      descriptor_short (b ∷ bs) sys.fstat (sys.open_read_only (b ∷ bs)) d

  pub open_file_short :
      (root path : List ℕ) (d : Descriptors) → ShortResult sys (open_file sys root path d).0
  unfolding open_file
  open_file_short root requested d =
      resolved_short (resolve_path sys root requested) d (resolve_path_short root requested)

  round_short :
      (asks : List (ℕ → ℕ → Received)) (offset left size : ℕ) (buffer : List ℕ) (answer : Received)
      → length buffer + suc left ≤ size
      → ((chunk : List ℕ) → answer ≡ got chunk → length chunk ≤ suc left)
      → ((left' : ℕ) (buffer' : List ℕ)
          → length buffer' + left' ≤ size
          → ShortRead sys size (read_loop asks offset left' buffer'))
      → ShortRead sys size (elim answer [
        | Received.interrupted ↦ read_loop asks offset (suc left) buffer
        | Received.failed e ↦ fails (pread_failed e)
        | got [] ↦ bytes buffer
        | got (b ∷ bs) ↦ read_loop asks offset (left - length bs) (buffer ++ (b ∷ bs))
      ])
  round_short asks offset left size buffer Received.interrupted l fits rest =
      rest (suc left) buffer l
  round_short asks offset left size buffer (Received.failed e) l fits rest = pread_failed-Short e
  round_short asks offset left size buffer (got []) l fits rest = omega arith
  round_short asks offset left size buffer (got (b ∷ bs)) l fits rest =
      rest (left - length bs) (buffer ++ (b ∷ bs))
        (omega (arith, length-append buffer (b ∷ bs), fits (b ∷ bs) refl))

  loop_short :
      (asks : List (ℕ → ℕ → Received)) (offset left size : ℕ) (buffer : List ℕ)
      → All IsBounded asks
      → length buffer + left ≤ size
      → ShortRead sys size (read_loop asks offset left buffer)
  unfolding read_loop
  loop_short asks offset zero size buffer p l = omega arith
  loop_short [] offset (suc left) size buffer p l = tt
  loop_short (ask ∷ asks) offset (suc left) size buffer (p, ps) l =
      round_short asks offset left size buffer (ask (suc left) ((offset + length buffer) % 2 ^ 64))
        l (p (suc left) ((offset + length buffer) % 2 ^ 64))
        (λ left' buffer' l'. loop_short asks offset left' size buffer' ps l')

  pub read_short :
      (offset size : ℕ) → All IsBounded sys.preads → ShortRead sys size (read sys offset size)
  unfolding read message
  read_short offset size p =
      ground (arith, loop_short sys.preads offset size size [] p (omega arith))
