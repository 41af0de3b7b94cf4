-- ===== src/Client/Sim/P2p/Refine.antt =====
-- The rounds of sends and receives do what the market says.
use flume_ascend_host_bypass.Prelude.{
  ℕ, ◌+◌, ◌<◌, ◌≡◌, refl, subst, ap, ap₂, sym, ◌∙◌, true, false, none, some, List, [], ◌∷◌, length,
  take, All, Bool-cases, Option-cases, inl, inr, arith, take_all,
}
use mathlib.Core.Option.{some-injective}
use flume_ascend_host_bypass.Protocol.Checksum.{checksum32}
use flume_ascend_host_bypass.Client.Status
use flume_ascend_host_bypass.Client.Memory.{Memory, load, store, length-load, load-store}
use flume_ascend_host_bypass.Client.Io.{
  Detail, silent, parameters_differ, duplicate_send, duplicate_recv, make_io, make_pending_io,
  complete_io, complete_pending_io, retain_pending_io,
}
use flume_ascend_host_bypass.Client.Table.{Distinct, find, erase, erase-none}
use flume_ascend_host_bypass.Client.Sim.{
  retain_pending_buffer, release_pending_buffer, update_io, new_io,
}
use flume_ascend_host_bypass.Client.Sim.Laws.{
  update_at_new, update_at_both, update_at_back, update_io_new, release-retain,
}
use flume_ascend_host_bypass.Client.Sim.P2p.{
  P2pKey, same_key, PendingP2p, Pendings, no_pending, pending_matches, maybe_set_metadata,
  complete_if, release_if, fail_pending, complete_into, complete_pending, Sim, Role, send, recv,
  Post, refuse, finish, arrive, meet, sent_payload, post,
}
use flume_ascend_host_bypass.Client.Sim.P2p.Spec.{
  Side, gives, takes, Offer, Market, side_of, offer_of, wait_for, both_fail, deliver, same_terms,
  trade, answer_offer, spec_post,
}

-- An offer as the source keeps it.
abbrev pub pending_as : Offer → Side → PendingP2p
pending_as o (gives payload) = record {
  metadata_set = true;
  count = o.count;
  data_type = o.data_type;
  bytes = o.bytes;
  has_send = true;
  has_recv = false;
  payload = payload;
  dst = none;
  dst_offset = 0;
  send_io = some o.io;
  recv_io = none;
}
pending_as o (takes dst offset) = record {
  metadata_set = true;
  count = o.count;
  data_type = o.data_type;
  bytes = o.bytes;
  has_send = false;
  has_recv = true;
  payload = [];
  dst = some dst;
  dst_offset = offset;
  send_io = none;
  recv_io = some o.io;
}

abbrev pub pending_of : Offer → PendingP2p
pending_of o = pending_as o o.side

abbrev pub published : List (P2pKey × Offer) → Pendings
published [] = []
published ((key, o) ∷ rest) = (key, pending_of o) ∷ published rest

abbrev pub image : Market → Sim
image m = record { pendings = published m.offers; store = m.store }

-- Bytes that are given are as many as the offer says, and its request is there.
abbrev pub IsSide : ℕ → Side → Type 0
IsSide n (gives payload) = length payload ≡ n
IsSide n (takes dst offset) = Unit {0}

abbrev pub IsOffer : ℕ → P2pKey × Offer → Type 0
IsOffer n (key, o) = (o.io < n) × IsSide o.bytes o.side

abbrev pub IsMarket : Market → Type 0
IsMarket m = Distinct same_key m.offers × All (IsOffer (length m.store.ios)) m.offers

pub find_lem :
    (k : P2pKey) (t : List (P2pKey × Offer))
    → find same_key k (published t)
      ≡ (elim (find same_key k t) [ none ↦ none | some o ↦ some (pending_of o) ])
unfolding find
find_lem k [] = refl
find_lem k ((key, o) ∷ t) = elim (Bool-cases (same_key key k)) [
  | inl e ↦ rw (e)
  | inr e ↦ rw (e) (find_lem k t)
]

erase_lem :
    (k : P2pKey) (t : List (P2pKey × Offer))
    → erase same_key k (published t) ≡ published (erase same_key k t)
unfolding erase
erase_lem k [] = refl
erase_lem k ((key, o) ∷ t) = elim (Bool-cases (same_key key k)) [
  | inl e ↦ rw (e)
  | inr e ↦ rw (e) (ap (◌∷◌ (key, pending_of o)) (erase_lem k t))
]

-- A first submission waits.
arrive_first :
    (r : Role) (q : Post) (m : Market)
    → find same_key q.key m.offers ≡ none
    → arrive r q
        (sent_payload r q m.store)
        (length m.store.ios)
        (maybe_set_metadata q.count q.data_type q.bytes no_pending)
        (record { pendings = published m.offers; store = new_io make_pending_io m.store })
      ≡ image (wait_for q (side_of r q m.store) m)
unfolding arrive finish sent_payload maybe_set_metadata wait_for retain_pending_buffer new_io
arrive_first send q m e =
    let offer = offer_of q (length m.store.ios) (side_of send q m.store) in
    let kept = erase_lem q.key m.offers ∙ ap published (erase-none same_key q.key m.offers e) in
    ap₂ (λ p s. record { pendings = (q.key, pending_of offer) ∷ p; store = s }) kept
      (update_io_new retain_pending_io make_pending_io m.store)
arrive_first recv q m e =
    let offer = offer_of q (length m.store.ios) (side_of recv q m.store) in
    let kept = erase_lem q.key m.offers ∙ ap published (erase-none same_key q.key m.offers e) in
    ap₂ (λ p s. record { pendings = (q.key, pending_of offer) ∷ p; store = s }) kept
      (update_io_new retain_pending_io make_pending_io (retain_pending_buffer q.buffer m.store))

-- A second submission that is refused makes both fail.
refuse_both :
    (error : Detail) (q : Post) (o : Offer) (side : Side) (m : Market)
    → o.io < length m.store.ios
    → refuse error q
        (length m.store.ios)
        (pending_as o side)
        (record { pendings = published m.offers; store = new_io make_pending_io m.store })
      ≡ image (both_fail error q o.io side m)
unfolding refuse fail_pending complete_if release_if both_fail update_io new_io
    release_pending_buffer make_io complete_io make_pending_io
refuse_both error q o (gives payload) m h =
    ap₂ (λ p l. record { pendings = p; store = record m.store { ios = l } })
      (erase_lem q.key m.offers)
      (update_at_both o.io (complete_pending_io Status.invalid_argument 0 0 error)
        (complete_io Status.invalid_argument 0 0 error) m.store.ios make_pending_io h)
refuse_both error q o (takes dst offset) m h =
    ap₂
      (λ p l. record {
        pendings = p;
        store = record (release_pending_buffer dst m.store) { ios = l };
      })
      (erase_lem q.key m.offers)
      (update_at_both o.io (complete_pending_io Status.invalid_argument 0 0 error)
        (complete_io Status.invalid_argument 0 0 error) m.store.ios make_pending_io h)

-- As many bytes as were given are stored and summed up.
stored :
    (m : Memory) (at n : ℕ) (given : List ℕ)
    → length given ≡ n
    → (store m at (take n given) ≡ store m at given)
      × (checksum32 (load (store m at (take n given)) at n) ≡ checksum32 given)
stored m at n given e =
    let whole = take_all n given (omega (arith, e)) in
    (
      ap (store m at) whole,
      ap (λ bs. checksum32 (load (store m at bs) at n)) whole
          ∙ ap (λ k. checksum32 (load (store m at given) at k)) (sym e)
          ∙ ap checksum32 (load-store m at given),
    )

-- The two halves meet: one waits, the other comes.
arrive_second :
    (r : Role) (q : Post) (o : Offer) (side : Side) (m : Market)
    → o.io < length m.store.ios
    → o.bytes ≡ q.bytes
    → IsSide o.bytes side
    → arrive r q
        (sent_payload r q m.store)
        (length m.store.ios)
        (maybe_set_metadata q.count q.data_type q.bytes (pending_as o side))
        (record { pendings = published m.offers; store = new_io make_pending_io m.store })
      ≡ image (trade q o.io side (side_of r q m.store) m)
unfolding arrive finish sent_payload maybe_set_metadata complete_pending complete_into complete_if
    deliver update_io new_io retain_pending_buffer release_pending_buffer
arrive_second send q o (gives payload) m h e k =
    refuse_both (duplicate_send q.service) q o (gives payload) m h
arrive_second recv q o (takes dst offset) m h e k =
    refuse_both (duplicate_recv q.service) q o (takes dst offset) m h
arrive_second send q o (takes dst offset) m h e k =
    let given = load m.store.memory (q.buffer.ptr + q.offset) q.bytes in
    let whole =
      stored m.store.memory (dst.ptr + offset) o.bytes given
        (length-load m.store.memory (q.buffer.ptr + q.offset) q.bytes ∙ sym e) in
    rw
      (
        whole.1,
        whole.0,
        e,
        erase_lem q.key m.offers,
        update_at_new retain_pending_io m.store.ios make_pending_io,
      )
      (rw
        (update_at_both o.io (complete_pending_io Status.ok q.bytes (checksum32 given) silent)
          (complete_pending_io Status.ok q.bytes (checksum32 given) silent) m.store.ios
          (retain_pending_io make_pending_io) h)
        (unfold complete_pending_io retain_pending_io make_pending_io make_io in refl))
arrive_second recv q o (gives payload) m h e k =
    let whole = stored m.store.memory (q.buffer.ptr + q.offset) o.bytes payload k in
    rw
      (
        whole.1,
        whole.0,
        e,
        erase_lem q.key m.offers,
        update_at_new retain_pending_io m.store.ios make_pending_io,
      )
      (rw
        (update_at_back o.io (complete_pending_io Status.ok q.bytes (checksum32 payload) silent)
          (complete_pending_io Status.ok q.bytes (checksum32 payload) silent) m.store.ios
          (retain_pending_io make_pending_io) h)
        (unfold complete_pending_io retain_pending_io make_pending_io make_io in
          ap
            (λ r. image (record {
              offers = erase same_key q.key m.offers;
              store =
                  record (deliver q o.io (gives payload) payload (q.buffer.ptr + q.offset)
                    m).store { pending_refs = r };
            }))
            (ap (λ s. s.pending_refs) (release-retain q.buffer m.store))))

same_terms_lem :
    (q : Post) (o : Offer) (side : Side)
    → pending_matches (pending_as o side) q.count q.data_type q.bytes ≡ same_terms q o
unfolding pending_matches
same_terms_lem q o (gives payload) = refl
same_terms_lem q o (takes dst offset) = refl

-- A second submission meets the offer, or is refused.
found :
    (q : Post) (o : Offer) (m : Market)
    → o.io < length m.store.ios
    → IsSide o.bytes o.side
    → meet q
        (sent_payload q.role q m.store)
        (length m.store.ios)
        (some (pending_of o))
        (record { pendings = published m.offers; store = new_io make_pending_io m.store })
      ≡ image (answer_offer q (some o) (side_of q.role q m.store) m)
unfolding meet
found q o m h k = elim (Bool-cases (same_terms q o)) [
  | inl y ↦
      rw (same_terms_lem q o o.side, y) (arrive_second q.role q o o.side m h (ground (arith, y)) k)
  | inr n ↦
      rw (same_terms_lem q o o.side, n) (refuse_both (parameters_differ q.service) q o o.side m h)
]

find-IsOffer :
    (k : P2pKey) (n : ℕ) (t : List (P2pKey × Offer)) {o : Offer}
    → All (IsOffer n) t
    → find same_key k t ≡ some o
    → (o.io < n) × IsSide o.bytes o.side
unfolding find
find-IsOffer k n [] a e = cc
find-IsOffer k n ((key, x) ∷ t) {o} a e = elim (Bool-cases (same_key key k)) [
  | inl y ↦
      subst (λ (z : Offer). (z.io < n) × IsSide z.bytes z.side) (some-injective x o (rw (y) at e))
        a.0
  | inr b ↦ find-IsOffer k n t a.1 (rw (b) at e)
]

-- A submission of a send or a receive does to the pending map and the store exactly what the market
-- of offers says, for every submission and every market whose keys are distinct, whose offers hold
-- requests that exist and give as many bytes as they say: a first submission under a key becomes an
-- offer; a second one on the same terms and of the other role stores the payload at the receiver,
-- completes both requests with its size and checksum and frees the key; any other second one makes
-- both requests fail with FLUME_ERR_INVALID_ARGUMENT and frees the key.
pub post-refines : (q : Post) (m : Market) → IsMarket m → post q (image m) ≡ image (spec_post q m)
unfolding post spec_post
post-refines q m v = elim (Option-cases (find same_key q.key m.offers)) [
  | inl e ↦ rw (find_lem q.key m.offers, e) (unfold meet in arrive_first q.role q m e)
  | inr (o, e) ↦
      let (h, k) = find-IsOffer q.key (length m.store.ios) m.offers v.1 e in
      rw (find_lem q.key m.offers, e) (found q o m h k)
]
