-- ===== src/Client/Sim/P2p/Runs.antt =====
-- Submissions and releases in any order.
use flume_ascend_host_bypass.Prelude.{
  ℕ, ◌≡◌, refl, subst, ap, sym, ◌∙◌, Bool, true, false, some, List, [], ◌∷◌, get_elem?, All, ◌==◌,
  if◌then◌else◌, Bool-cases, Option-cases, ◌!=◌, ◌||◌, inl, inr, arith, All-map, All-zip,
}
use mathlib.Core.Option.{some-injective}
use flume_ascend_host_bypass.Client.Buffer.{Buffer}
use flume_ascend_host_bypass.Client.Io.{Io, retain_pending_io, make_pending_io}
use flume_ascend_host_bypass.Client.Table.{Distinct, total}
use flume_ascend_host_bypass.Client.Sim.{update_io}
use flume_ascend_host_bypass.Client.Sim.Laws.{get_elem?-update_at_ne, length-update_at}
use flume_ascend_host_bypass.Client.Sim.Release.{
  set_live, delete_io, release_found, flume_buffer_release, flume_io_release,
}
use flume_ascend_host_bypass.Client.Sim.P2p.{P2pKey, same_key, Sim, Post, post}
use flume_ascend_host_bypass.Client.Sim.P2p.Spec.{
  Side, gives, takes, Offer, Market, held_io, spec_post,
}
use flume_ascend_host_bypass.Client.Sim.P2p.Refine.{IsOffer, image, post-refines}
use flume_ascend_host_bypass.Client.Sim.P2p.Counts.{
  taken, taken_by, Alive, Holds, Apart, Sound, spec_post-Sound,
}

-- A buffer that no offer takes may go.
Alive-released :
    (handle : ℕ) (live : ℕ → Bool) (side : Side)
    → taken handle side ≡ 0
    → Alive live side
    → Alive (λ h. if h == handle then false else live h) side
Alive-released handle live (gives payload) e a = tt
Alive-released handle live (takes b offset) e a = elim (Bool-cases (b.handle == handle)) [
  | inl y ↦ absurd (ground (arith, e, y))
  | inr n ↦ rw (n) a
]

Holds-released :
    (handle : ℕ) (live : ℕ → Bool) (ios : List Io) (t : List (P2pKey × Offer))
    → total same_key (taken_by handle) t ≡ 0
    → All (Holds live ios) t
    → All (Holds (λ h. if h == handle then false else live h) ios) t
Holds-released handle live ios [] e a = tt
Holds-released handle live ios ((key, o) ∷ t) e a = (
  (Alive-released handle live o.side (omega (arith, e)) a.0.0, a.0.1),
  Holds-released handle live ios t (omega (arith, e)) a.1,
)

flume_buffer_release-Sound :
    (elsewhere : ℕ → ℕ) (b : Buffer) (m : Market)
    → Sound elsewhere m
    → Sound elsewhere (record m { store = (flume_buffer_release b m.store).1 })
unfolding flume_buffer_release set_live
flume_buffer_release-Sound elsewhere b m v =
    elim (Bool-cases
      ((m.store.symmetric_refs b.handle != 0) || (m.store.pending_refs b.handle != 0))) [
        | inl y ↦ rw (y) v
        | inr n ↦ rw (n) (record {
          formed = v.formed;
          counted = v.counted;
          holds =
              Holds-released b.handle m.store.live m.store.ios m.offers
                (omega (arith, v.counted b.handle, quiet n)) v.holds;
          single = v.single;
        })
      ]
  where
    quiet :
        ((m.store.symmetric_refs b.handle != 0) || (m.store.pending_refs b.handle != 0)) ≡ false
        → m.store.pending_refs b.handle ≡ 0
    quiet n = ground (arith, n)

-- A request that an offer holds is counted, so what is deleted is another.
not_held :
    (i : ℕ) (io : Io) (live : ℕ → Bool) (ios : List Io) (t : List (P2pKey × Offer))
    → get_elem? ios i ≡ some io
    → io.pending_ref_count ≡ 0
    → All (Holds live ios) t
    → All (Apart i) t
not_held i io live ios [] e z a = tt
not_held i io live ios ((key, o) ∷ t) e z a = (
  λ y.
      let same : io ≡ held_io =
        some-injective io held_io (sym e ∙ ap (get_elem? ios) (sym y) ∙ a.0.1) in
      absurd (omega (arith, z, ap (λ (x : Io). x.pending_ref_count) same, held_count)),
  not_held i io live ios t e z a.1,
)
  where
    held_count : held_io.pending_ref_count ≡ 1
    held_count = unfold retain_pending_io make_pending_io in refl

flume_io_release-Sound :
    (elsewhere : ℕ → ℕ) (i : ℕ) (m : Market)
    → Sound elsewhere m
    → Sound elsewhere (record m { store = (flume_io_release i m.store).1 })
unfolding flume_io_release release_found delete_io update_io
flume_io_release-Sound elsewhere i m v = elim (Option-cases (get_elem? m.store.ios i)) [
  | inl e ↦ rw (e) v
  | inr (io, e) ↦ elim (Bool-cases (io.pending_ref_count != 0)) [
    | inl y ↦ rw (e, y) v
    | inr n ↦
        let freed : Io → Io = λ x. record x { deleted = true } in
        let free = not_held i io m.store.live m.store.ios m.offers e (ground (arith, n)) v.holds in
        rw (e, n)
          (record {
            formed =
                subst (λ k. Distinct same_key m.offers × All (IsOffer k) m.offers)
                  (sym (length-update_at i freed m.store.ios)) v.formed;
            counted = v.counted;
            holds =
                All-map m.offers
                  (λ x k. (
                    k.0.0,
                    get_elem?-update_at_ne i x.1.io freed m.store.ios (λ y. k.1 (sym y)) ∙ k.0.1,
                  ))
                  (All-zip _ _ m.offers v.holds free);
            single = v.single;
          })
  ]
]

-- Submissions of buffers that are alive, and releases of any buffers and requests, in any order.
pub data Runs : Sim → Sim → Type 0 where
  ends : {s : Sim} → Runs s s
  submits :
      {s t : Sim} (q : Post) → s.store.live q.buffer.handle ≡ true → Runs (post q s) t → Runs s t
  releases :
      {s t : Sim} (b : Buffer)
      → Runs (record s { store = (flume_buffer_release b s.store).1 }) t
      → Runs s t
  frees :
      {s t : Sim} (i : ℕ) → Runs (record s { store = (flume_io_release i s.store).1 }) t → Runs s t

abbrev pub IsSound : (ℕ → ℕ) → Sim → Type 0
IsSound elsewhere s = (m : Market) × (s ≡ image m) × Sound elsewhere m

-- Over any sequence of submissions whose buffers are alive, of releases of any buffers and of
-- releases of any requests, a sound state stays sound: the keys are distinct, the references to
-- each buffer are as many as the waiting receives into it, beside a fixed number from elsewhere,
-- the buffer of every waiting receive has not been deleted, and the request of every waiting
-- submission is pending, counted once, not deleted and held by no other.
pub Runs-Sound :
    (elsewhere : ℕ → ℕ) {s t : Sim} → Runs s t → IsSound elsewhere s → IsSound elsewhere t
Runs-Sound elsewhere Runs.ends v = v
Runs-Sound elsewhere (Runs.submits q lives r) (m, e, v) = Runs-Sound elsewhere r (
  spec_post q m,
  ap (post q) e ∙ post-refines q m v.formed,
  spec_post-Sound elsewhere q m (sym (ap (λ (s : Sim). s.store.live q.buffer.handle) e) ∙ lives) v,
)
Runs-Sound elsewhere (Runs.releases b r) (m, e, v) = Runs-Sound elsewhere r (
  record m { store = (flume_buffer_release b m.store).1 },
  ap (λ (s : Sim). record s { store = (flume_buffer_release b s.store).1 }) e,
  flume_buffer_release-Sound elsewhere b m v,
)
Runs-Sound elsewhere (Runs.frees i r) (m, e, v) = Runs-Sound elsewhere r (
  record m { store = (flume_io_release i m.store).1 },
  ap (λ (s : Sim). record s { store = (flume_io_release i s.store).1 }) e,
  flume_io_release-Sound elsewhere i m v,
)
