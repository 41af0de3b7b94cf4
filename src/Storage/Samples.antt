-- ===== src/Storage/Samples.antt =====
-- A system whose only file holds six bytes, for the runs of the tests.
use flume_ascend_host_bypass.Prelude.{
  ℕ, suc, ◌≤◌, ◌≡◌, ap, length-take, subst, inl, Bool, true, false, List, [], ◌∷◌, ◌++◌, take, drop,
  All, arith, ◌==◌, min, length,
}
use flume_ascend_host_bypass.Protocol.Stream.{Received, got}
use flume_ascend_host_bypass.Storage.System.{allocated, System, handle, entry, path}
use flume_ascend_host_bypass.Storage.PosixFile.Range.{Chunk, IsPread}
use flume_ascend_host_bypass.Storage.PosixFile.Bounds.{IsBrief, IsBounded}

abbrev pub content : List ℕ
content = 10 ∷ 11 ∷ 12 ∷ 13 ∷ 14 ∷ 15 ∷ []

-- A pread that hands out at most four bytes a call.
abbrev pub ask : ℕ → ℕ → Received
ask n offset = got (take (min n 4) (drop offset content))

abbrev starts_with_slash : List ℕ → Bool
starts_with_slash [] = false
starts_with_slash (c ∷ cs) = c == 47

abbrev pub system : System
system = record {
  is_absolute = starts_with_slash;
  components = λ p. p ∷ [];
  join = λ root p. root ++ (47 ∷ p);
  weakly_canonical = λ p. path p;
  open_read_only = λ p. handle 5;
  fstat = λ n. entry true 6;
  dup = λ n. handle 9;
  preads = ask ∷ ask ∷ ask ∷ ask ∷ [];
  allocates = λ n. allocated;
  strerror = λ e. [];
}

abbrev pub root : List ℕ
root = 47 ∷ 115 ∷ []

abbrev pub name : List ℕ
name = 102 ∷ []

cut : (n : ℕ) → min (suc n) 4 ≡ suc (min n 3)
cut n = omega arith

pub ask-Chunk : (n offset : ℕ) → Chunk content ask n offset
ask-Chunk n offset = (min n 3, omega arith, ap (λ k. got (take k (drop offset content))) (cut n))

pub preads-IsPread : All (IsPread content) system.preads
preads-IsPread = (one, (one, (one, (one, tt))))
  where
    one : IsPread content ask
    one n offset = inl (ask-Chunk n offset)

pub system-IsBrief : IsBrief system
system-IsBrief = record { strerror_brief = λ e. omega arith; what_brief = λ p what e. cc }

abbrev chunk_of : Received → List ℕ
chunk_of (got chunk) = chunk
chunk_of Received.interrupted = []
chunk_of (Received.failed e) = []

ask-IsBounded : IsBounded ask
ask-IsBounded n offset chunk e =
    subst (λ r. length (chunk_of r) ≤ n) e
      (omega (arith, length-take (min n 4) (drop offset content)))

pub preads-IsBounded : All IsBounded system.preads
preads-IsBounded = (ask-IsBounded, (ask-IsBounded, (ask-IsBounded, (ask-IsBounded, tt))))
