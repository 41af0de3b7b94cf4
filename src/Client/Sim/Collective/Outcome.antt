-- ===== src/Client/Sim/Collective/Outcome.antt =====
-- What a whole collective leaves behind: the memory and the requests of all its ranks.
use flume_ascend_host_bypass.Prelude.{
  ℕ, zero, suc, ◌+◌, ◌*◌, ◌++◌, Option, none, true, ap₂, take, drop, length-append, take_all,
  take-append, ◌≤◌, ◌<◌, ◌≡◌, ◌⊎◌, inl, inr, refl, subst, ap, sym, ◌∙◌, some, List, [], ◌∷◌, length,
  get_elem?, All, arith, ◌==◌, ==_iff, Bool-cases,
}
use mathlib.Core.Option.{some-injective}
use flume_ascend_host_bypass.Protocol.Checksum.{checksum32}
use flume_ascend_host_bypass.Client.Status
use flume_ascend_host_bypass.Client.Memory.{load, store, load-store, load_apart}
use flume_ascend_host_bypass.Client.Io.{Io, Detail, silent, complete_pending_io}
use flume_ascend_host_bypass.Client.Sim.{Store, update_at, update_io, release_pending_buffer}
use flume_ascend_host_bypass.Client.Sim.Laws.{
  length-update_at, get_elem?-update_at, get_elem?-update_at_ne, get_elem?-lt, get_elem?-inside,
}
use flume_ascend_host_bypass.Client.Sim.P2p.Delivery.{IsDone}
use flume_ascend_host_bypass.Client.Sim.Collective.{
  Arrival, hand_out, fail_pending, gathered, payloads,
}
use flume_ascend_host_bypass.Client.Sim.Reduce.Laws.{drop_past}

-- Two places that n bytes are stored at do not overlap.
abbrev pub place : Arrival → ℕ
place a = a.dst.ptr + a.dst_offset

abbrev pub Clear : ℕ → Arrival → Arrival → Type 0
Clear n a b = (place a + n ≤ place b) ⊎ (place b + n ≤ place a)

abbrev pub Disjoint : ℕ → List Arrival → Type 0
Disjoint n [] = Unit {0}
Disjoint n (a ∷ rest) = All (Clear n a) rest × Disjoint n rest

-- The ranks behind leave what lies apart from their places.
hand_out_apart :
    (out : List ℕ) (a : Arrival) (rest : List Arrival) (s : Store)
    → All (Clear (length out) a) rest
    → load (hand_out out rest s).memory (place a) (length out)
      ≡ load s.memory (place a) (length out)
unfolding hand_out update_io release_pending_buffer
hand_out_apart out a [] s h = refl
hand_out_apart out a (b ∷ rest) s h =
    hand_out_apart out a rest _ h.1 ∙ load_apart s.memory (place a) (length out) (place b) out h.0

-- Where the destinations of all ranks do not overlap, each of them holds the whole output when it
-- has been handed out.
pub hand_out-stored :
    (out : List ℕ) (ranks : List Arrival) (s : Store)
    → Disjoint (length out) ranks
    → All (λ a. load (hand_out out ranks s).memory (place a) (length out) ≡ out) ranks
unfolding hand_out update_io release_pending_buffer
hand_out-stored out [] s d = tt
hand_out-stored out (a ∷ rest) s d = (
  hand_out_apart out a rest _ d.0 ∙ load-store s.memory (place a) out,
  hand_out-stored out rest _ d.1,
)

-- A request that has come to something.
abbrev pub Has : (Io → Type 0) → List Io → ℕ → Type 0
Has P ios i = (io : Io) × (get_elem? ios i ≡ some io) × P io

Has-update_at :
    (P : Io → Type 0) (f : Io → Io) (ios : List Io) (i : ℕ)
    → ((io : Io) → P (f io))
    → i < length ios
    → Has P (update_at i f ios) i
Has-update_at P f ios i p h =
    let (io, e) = get_elem?-lt ios i h in (f io, get_elem?-update_at i f ios io e, p io)

Has-update_at_any :
    (P : Io → Type 0) (f : Io → Io) (ios : List Io) (i j : ℕ)
    → ((io : Io) → P (f io))
    → Has P ios i
    → Has P (update_at j f ios) i
Has-update_at_any P f ios i j p (io, e, d) = elim (Bool-cases (i == j)) [
  | inl y ↦
      let same : i ≡ j = (==_iff i j).0 y in
      subst (λ k. Has P (update_at k f ios) i) same
        (Has-update_at P f ios i p (get_elem?-inside ios i io e))
  | inr n ↦ (io, get_elem?-update_at_ne j i f ios (λ y. absurd (ground (arith, n, y))) ∙ e, d)
]

ended_well :
    (out : List ℕ) (checksum : ℕ)
    → checksum ≡ checksum32 out
    → (io : Io) → IsDone out (complete_pending_io Status.ok (length out) checksum silent io)
unfolding complete_pending_io
ended_well out checksum c io = record { done = refl; status = refl; bytes = refl; checksum = c }

-- The ranks behind leave a request that has ended well as it is.
hand_out_keeps :
    (out : List ℕ) (ranks : List Arrival) (s : Store) (i : ℕ)
    → Has (IsDone out) s.ios i
    → Has (IsDone out) (hand_out out ranks s).ios i
unfolding hand_out update_io release_pending_buffer
hand_out_keeps out [] s i d = d
hand_out_keeps out (a ∷ rest) s i d = hand_out_keeps out rest _ i (
    Has-update_at_any (IsDone out) _ s.ios i a.io
      (ended_well out _ (ap checksum32 (load-store s.memory (place a) out))) d)

-- The request of each rank ends with the size and the checksum of the output.
pub hand_out-IsDone :
    (out : List ℕ) (ranks : List Arrival) (s : Store) (r : ℕ) (a : Arrival)
    → get_elem? ranks r ≡ some a
    → a.io < length s.ios
    → Has (IsDone out) (hand_out out ranks s).ios a.io
unfolding hand_out update_io release_pending_buffer
hand_out-IsDone out [] s r a e h = cc
hand_out-IsDone out (x ∷ rest) s zero a e h =
    let mark =
      complete_pending_io Status.ok (length out)
        (checksum32 (load (store s.memory (place x) out) (place x) (length out))) silent in
    hand_out_keeps out rest _ a.io (
      subst (λ i. Has (IsDone out) (update_at i mark s.ios) a.io)
        (sym (ap (λ y. y.io) (some-injective _ _ e)))
        (Has-update_at (IsDone out) _ s.ios a.io
          (ended_well out _ (ap checksum32 (load-store s.memory (place x) out))) h))
hand_out-IsDone out (x ∷ rest) s (suc r) a e h =
    hand_out-IsDone out rest _ r a e (subst (λ n. a.io < n) (sym (length-update_at x.io _ s.ios)) h)

-- A request that has failed.
pub record HasFailed (status : ℕ) (error : Detail) (io : Io) : Type 0 where
  pub done : io.done ≡ true
  pub status_same : io.status ≡ status
  pub bytes : io.bytes ≡ 0
  pub error_same : io.error ≡ error

failed_so :
    (status : ℕ) (error : Detail) (io : Io)
    → HasFailed status error (complete_pending_io status 0 0 error io)
unfolding complete_pending_io
failed_so status error io = record {
  done = refl;
  status_same = refl;
  bytes = refl;
  error_same = refl;
}

fail_pending_keeps :
    (status : ℕ) (error : Detail) (xs : List (Option Arrival)) (s : Store) (i : ℕ)
    → Has (HasFailed status error) s.ios i
    → Has (HasFailed status error) (fail_pending status error xs s).ios i
unfolding fail_pending update_io release_pending_buffer
fail_pending_keeps status error [] s i d = d
fail_pending_keeps status error (none ∷ xs) s i d = fail_pending_keeps status error xs s i d
fail_pending_keeps status error (some a ∷ xs) s i d =
    fail_pending_keeps status error xs _ i
      (Has-update_at_any (HasFailed status error) _ s.ios i a.io (failed_so status error) d)

pub fail_pending-HasFailed :
    (status : ℕ) (error : Detail) (xs : List (Option Arrival)) (s : Store) (r : ℕ) (a : Arrival)
    → get_elem? xs r ≡ some (some a)
    → a.io < length s.ios
    → Has (HasFailed status error) (fail_pending status error xs s).ios a.io
unfolding fail_pending update_io release_pending_buffer
fail_pending-HasFailed status error [] s r a e h = cc
fail_pending-HasFailed status error (none ∷ xs) s zero a e h = cc
fail_pending-HasFailed status error (some x ∷ xs) s zero a e h =
    fail_pending_keeps status error xs _ a.io (
      subst
        (λ i.
          Has (HasFailed status error) (update_at i (complete_pending_io status 0 0 error) s.ios)
            a.io)
        (sym (ap (λ y. y.io) (some-injective _ _ (some-injective _ _ e))))
        (Has-update_at (HasFailed status error) _ s.ios a.io (failed_so status error) h))
fail_pending-HasFailed status error (none ∷ xs) s (suc r) a e h =
    fail_pending-HasFailed status error xs s r a e h
fail_pending-HasFailed status error (some x ∷ xs) s (suc r) a e h =
    fail_pending-HasFailed status error xs _ r a e
      (subst (λ n. a.io < n) (sym (length-update_at x.io _ s.ios)) h)

pub fail_pending_memory :
    (status : ℕ) (error : Detail) (xs : List (Option Arrival)) (s : Store)
    → (fail_pending status error xs s).memory ≡ s.memory
unfolding fail_pending update_io release_pending_buffer
fail_pending_memory status error [] s = refl
fail_pending_memory status error (none ∷ xs) s = fail_pending_memory status error xs s
fail_pending_memory status error (some a ∷ xs) s = fail_pending_memory status error xs _

-- What all ranks have brought, in the order of the ranks.
pub length-gathered :
    (n : ℕ) (ranks : List Arrival)
    → All (λ a. length a.payload ≡ n) ranks
    → length (gathered n (payloads ranks)) ≡ length ranks * n
unfolding gathered
length-gathered n [] h = omega arith
length-gathered n (a ∷ rest) h =
    length-append (take n a.payload) _
    ∙ ap₂ ◌+◌ (ap length (take_all n a.payload (omega (arith, h.0))) ∙ h.0)
        (length-gathered n rest h.1)
    ∙ grind arith

-- The payload of a rank lies behind those of the ranks below it.
pub gathered_slice :
    (n : ℕ) (ranks : List Arrival) (r : ℕ) (a : Arrival)
    → All (λ x. length x.payload ≡ n) ranks
    → get_elem? ranks r ≡ some a
    → take n (drop (r * n) (gathered n (payloads ranks))) ≡ a.payload
unfolding gathered
gathered_slice n [] r a h e = cc
gathered_slice n (x ∷ rest) zero a h e =
    let whole : take n x.payload ≡ x.payload = take_all n x.payload (omega (arith, h.0)) in
    let none_off : 0 * n ≡ 0 = omega arith in
    ap (λ k. take n (drop k (take n x.payload ++ gathered n (payloads rest)))) none_off
    ∙ ap (λ p. take n (p ++ gathered n (payloads rest))) whole
    ∙ ap (λ k. take k (x.payload ++ gathered n (payloads rest))) (sym h.0)
    ∙ take-append x.payload (gathered n (payloads rest))
    ∙ ap (λ y. y.payload) (some-injective _ _ e)
gathered_slice n (x ∷ rest) (suc r) a h e =
    let whole : take n x.payload ≡ x.payload = take_all n x.payload (omega (arith, h.0)) in
    let off : suc r * n ≡ length x.payload + r * n = grind (arith, h.0) in
    ap (λ k. take n (drop k (take n x.payload ++ gathered n (payloads rest)))) off
    ∙ ap (λ p. take n (drop (length x.payload + r * n) (p ++ gathered n (payloads rest)))) whole
    ∙ ap (take n) (drop_past (r * n) x.payload (gathered n (payloads rest)))
    ∙ gathered_slice n rest r a h.1 e
