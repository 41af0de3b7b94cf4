-- ===== src/Client/Sim/P2p/Market.antt =====
-- The market under its own rounds: which offers stand, and that they stay well formed.
use flume_ascend_host_bypass.Prelude.{
  ℕ, suc, ◌+◌, ◌<◌, ◌≡◌, refl, subst, ap, sym, ◌∙◌, false, none, some, List, [], ◌∷◌, ◌++◌, length,
  All, Bool-cases, Option-cases, inl, inr, arith, length-append, All-map,
}
use flume_ascend_host_bypass.Client.Memory.{length-load}
use flume_ascend_host_bypass.Client.Io.{
  Io, Detail, parameters_differ, duplicate_send, duplicate_recv,
}
use flume_ascend_host_bypass.Client.Table.{
  Distinct, All-erase, find, erase, erase-Distinct, find-erase_ne,
}
use flume_ascend_host_bypass.Client.Sim.{
  Store, update_at, retain_pending_buffer, release_pending_buffer, update_io, new_io,
}
use flume_ascend_host_bypass.Client.Sim.Laws.{length-update_at}
use flume_ascend_host_bypass.Client.Sim.P2p.{P2pKey, same_key, Role, send, recv, Post}
use flume_ascend_host_bypass.Client.Sim.P2p.Keys.{same_key→eq}
use flume_ascend_host_bypass.Client.Sim.P2p.Refine.{IsSide, IsOffer, IsMarket}
use flume_ascend_host_bypass.Client.Sim.P2p.Spec.{
  Side, gives, takes, Offer, Market, side_of, hold, let_go, held_io, offer_of, wait_for, both_fail,
  deliver, same_terms, trade, answer_offer, spec_post,
}

-- The two ways a round changes the table: an offer is entered under a free key, or a key is erased.
pub data Changes (q : Post) (m : Market) : Market → Type 0 where
  enters :
      {side : Side} {after : Market}
      → find same_key q.key m.offers ≡ none
      → side ≡ side_of q.role q m.store
      → after.offers ≡ (q.key, offer_of q (length m.store.ios) side) ∷ m.offers
      → after.store.ios ≡ m.store.ios ++ (held_io ∷ [])
      → after.store.pending_refs ≡ (hold side m.store).pending_refs
      → after.store.live ≡ m.store.live
      → Changes q m after
  erases :
      {o : Offer} {side : Side} {after : Market} (f : Io → Io) (io : Io)
      → find same_key q.key m.offers ≡ some o
      → o.side ≡ side
      → after.offers ≡ erase same_key q.key m.offers
      → after.store.ios ≡ update_at o.io f m.store.ios ++ (io ∷ [])
      → after.store.pending_refs ≡ (let_go side m.store).pending_refs
      → after.store.live ≡ m.store.live
      → Changes q m after

module _ (q : Post) (o : Offer) (m : Market) (e : find same_key q.key m.offers ≡ some o) where
  both_fail-Changes :
      (error : Detail) (side : Side) → o.side ≡ side → Changes q m (both_fail error q o.io side m)
  unfolding both_fail update_io new_io release_pending_buffer
  both_fail-Changes error (gives payload) s = Changes.erases _ _ e s refl refl refl refl
  both_fail-Changes error (takes dst offset) s = Changes.erases _ _ e s refl refl refl refl

  deliver-Changes :
      (side : Side) (payload : List ℕ) (at : ℕ)
      → o.side ≡ side
      → Changes q m (deliver q o.io side payload at m)
  unfolding deliver update_io new_io release_pending_buffer
  deliver-Changes (gives _) payload at s = Changes.erases _ _ e s refl refl refl refl
  deliver-Changes (takes dst offset) payload at s = Changes.erases _ _ e s refl refl refl refl

  trade-Changes : (side mine : Side) → o.side ≡ side → Changes q m (trade q o.io side mine m)
  trade-Changes (gives payload) (takes dst offset) s =
      deliver-Changes (gives payload) payload (dst.ptr + offset) s
  trade-Changes (takes dst offset) (gives payload) s =
      deliver-Changes (takes dst offset) payload (dst.ptr + offset) s
  trade-Changes (gives payload) (gives _) s =
      both_fail-Changes (duplicate_send q.service) (gives payload) s
  trade-Changes (takes dst offset) (takes _ _) s =
      both_fail-Changes (duplicate_recv q.service) (takes dst offset) s

  answered : Changes q m (answer_offer q (some o) (side_of q.role q m.store) m)
  answered = elim (Bool-cases (same_terms q o)) [
    | inl y ↦ rw (y) (trade-Changes o.side (side_of q.role q m.store) refl)
    | inr n ↦ rw (n) (both_fail-Changes (parameters_differ q.service) o.side refl)
  ]

wait_for-Changes :
    (q : Post) (m : Market)
    → find same_key q.key m.offers ≡ none
    → (r : Role) → r ≡ q.role
    → Changes q m (wait_for q (side_of r q m.store) m)
unfolding wait_for new_io retain_pending_buffer
wait_for-Changes q m e send h =
    Changes.enters e (ap (λ r. side_of r q m.store) h) refl refl refl refl
wait_for-Changes q m e recv h =
    Changes.enters e (ap (λ r. side_of r q m.store) h) refl refl refl refl

pub spec_post-Changes : (q : Post) (m : Market) → Changes q m (spec_post q m)
unfolding spec_post
spec_post-Changes q m = elim (Option-cases (find same_key q.key m.offers)) [
  | inl e ↦ rw (e) (wait_for-Changes q m e q.role refl)
  | inr (o, e) ↦ rw (e) (answered q o m e)
]

-- Every round makes one request.
pub length-spec_post :
    (q : Post) (m : Market) → length (spec_post q m).store.ios ≡ suc (length m.store.ios)
length-spec_post q m = go (spec_post-Changes q m)
  where
    go : {after : Market} → Changes q m after → length after.store.ios ≡ suc (length m.store.ios)
    go (Changes.enters e s t l _ _) =
        ap length l ∙ omega (arith, length-append m.store.ios (held_io ∷ []))
    go (Changes.erases {o = o} f io e s t l _ _) =
        ap length l
        ∙ omega (
          arith,
          length-append (update_at o.io f m.store.ios) (io ∷ []),
          length-update_at o.io f m.store.ios,
        )

side_of-IsSide : (r : Role) (q : Post) (s : Store) → IsSide q.bytes (side_of r q s)
side_of-IsSide send q s = length-load s.memory (q.buffer.ptr + q.offset) q.bytes
side_of-IsSide recv q s = tt

-- Every round keeps the market well formed.
pub spec_post-IsMarket : (q : Post) (m : Market) → IsMarket m → IsMarket (spec_post q m)
spec_post-IsMarket q m (d, a) =
    subst (λ n. Distinct same_key (spec_post q m).offers × All (IsOffer n) (spec_post q m).offers)
      (sym (length-spec_post q m)) (go (spec_post-Changes q m))
  where
    size : ℕ
    size = length m.store.ios

    older : (x : P2pKey × Offer) → IsOffer size x → IsOffer (suc size) x
    older (key, o) h = (omega (arith, h.0), h.1)

    Fine : List (P2pKey × Offer) → Type 0
    Fine t = Distinct same_key t × All (IsOffer (suc size)) t

    go : {after : Market} → Changes q m after → Fine after.offers
    go {after} (Changes.enters {side = side} e s t _ _ _) =
        let own : (size < suc size) × IsSide q.bytes side =
          (omega arith, subst (IsSide q.bytes) (sym s) (side_of-IsSide q.role q m.store)) in
        subst Fine (sym t) ((e, d), (own, All-map m.offers older a))
    go {after} (Changes.erases _ _ e s t _ _ _) = subst Fine (sym t) (
      erase-Distinct same_key q.key m.offers d,
      All-map (erase same_key q.key m.offers) older
          (All-erase same_key (IsOffer size) q.key m.offers a),
    )

-- A round leaves the offers under other keys.
pub find-spec_post_ne :
    (q : Post) (k : P2pKey) (m : Market)
    → same_key q.key k ≡ false
    → find same_key k (spec_post q m).offers ≡ find same_key k m.offers
unfolding find
find-spec_post_ne q k m h = go (spec_post-Changes q m)
  where
    go :
        {after : Market}
        → Changes q m after
        → find same_key k after.offers ≡ find same_key k m.offers
    go (Changes.enters e s t _ _ _) = rw (t, h)
    go (Changes.erases _ _ e s t _ _ _) =
        rw (t) (find-erase_ne same_key same_key→eq q.key k m.offers h)
