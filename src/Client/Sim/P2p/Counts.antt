-- ===== src/Client/Sim/P2p/Counts.antt =====
-- What a waiting offer holds stays there: its buffer is alive and counted, its request is not done,
-- counted once and not deleted.
use flume_ascend_host_bypass.Prelude.{
  ℕ, ◌+◌, ◌-◌, ◌≡◌, ◌≢◌, subst, ap, sym, ◌∙◌, Bool, true, false, some, List, [], ◌∷◌, length,
  get_elem?, All, ◌==◌, if◌then◌else◌, Bool-cases, inl, inr, arith, All-map, All-zip, ==_iff,
}
use mathlib.Core.Option.{some-injective}
use flume_ascend_host_bypass.Client.Io.{Io}
use flume_ascend_host_bypass.Client.Table.{find, erase, All-erase, total, total-erase}
use flume_ascend_host_bypass.Client.Sim.{
  Store, set_at, update_at, retain_pending_buffer, release_pending_buffer,
}
use flume_ascend_host_bypass.Client.Sim.Laws.{
  get_elem?-update_at_ne, get_elem?-old, get_elem?-new, length-update_at,
}
use flume_ascend_host_bypass.Client.Sim.P2p.{P2pKey, same_key, Role, send, recv, Post}
use flume_ascend_host_bypass.Client.Sim.P2p.Spec.{
  Side, gives, takes, Offer, Market, side_of, held_io, hold, let_go, spec_post,
}
use flume_ascend_host_bypass.Client.Sim.P2p.Refine.{IsOffer, IsMarket}
use flume_ascend_host_bypass.Client.Sim.P2p.Market.{Changes, spec_post-Changes, spec_post-IsMarket}

abbrev pub taken : ℕ → Side → ℕ
taken h (gives payload) = 0
taken h (takes b offset) = if h == b.handle then 1 else 0

abbrev pub taken_by : ℕ → Offer → ℕ
taken_by h o = taken h o.side

abbrev pub Alive : (ℕ → Bool) → Side → Type 0
Alive live (gives payload) = Unit {0}
Alive live (takes b offset) = live b.handle ≡ true

abbrev pub Holds : (ℕ → Bool) → List Io → P2pKey × Offer → Type 0
Holds live ios (key, o) = Alive live o.side × (get_elem? ios o.io ≡ some held_io)

-- No two offers hold one request.
abbrev pub Apart : ℕ → P2pKey × Offer → Type 0
Apart i (key, o) = o.io ≢ i

abbrev pub Single : List (P2pKey × Offer) → Type 0
Single [] = Unit {0}
Single ((key, o) ∷ t) = All (Apart o.io) t × Single t

-- The references that the offers take are counted, beside those from elsewhere.
pub record Sound (elsewhere : ℕ → ℕ) (m : Market) : Type 0 where
  pub formed : IsMarket m
  pub counted :
      (h : ℕ) → m.store.pending_refs h ≡ elsewhere h + total same_key (taken_by h) m.offers
  pub holds : All (Holds m.store.live m.store.ios) m.offers
  pub single : Single m.offers

hold_lem :
    (h : ℕ) (side : Side) (s : Store)
    → (hold side s).pending_refs h ≡ s.pending_refs h + taken h side
unfolding retain_pending_buffer set_at
hold_lem h (gives payload) s = omega arith
hold_lem h (takes b offset) s = elim (Bool-cases (h == b.handle)) [
  | inl y ↦ rw (y) (omega (arith, ap s.pending_refs ((==_iff h b.handle).0 y)))
  | inr n ↦ rw (n) (omega arith)
]

let_go_lem :
    (h : ℕ) (side : Side) (s : Store)
    → (let_go side s).pending_refs h ≡ s.pending_refs h - taken h side
unfolding release_pending_buffer set_at
let_go_lem h (gives payload) s = omega arith
let_go_lem h (takes b offset) s = elim (Bool-cases (h == b.handle)) [
  | inl y ↦ rw (y) (omega (arith, ap s.pending_refs ((==_iff h b.handle).0 y)))
  | inr n ↦ rw (n) (omega arith)
]

erase-Single : (k : P2pKey) (t : List (P2pKey × Offer)) → Single t → Single (erase same_key k t)
unfolding erase
erase-Single k [] s = tt
erase-Single k ((key, o) ∷ t) s = elim (Bool-cases (same_key key k)) [
  | inl y ↦ rw (y) s.1
  | inr n ↦ rw (n) (All-erase same_key (Apart o.io) k t s.0, erase-Single k t s.1)
]

erase-Apart :
    (k : P2pKey) (t : List (P2pKey × Offer)) (o : Offer)
    → find same_key k t ≡ some o
    → Single t
    → All (Apart o.io) (erase same_key k t)
unfolding find erase
erase-Apart k [] o e s = tt
erase-Apart k ((key, x) ∷ t) o e s = elim (Bool-cases (same_key key k)) [
  | inl y ↦
      rw (y) (subst (λ (z : Offer). All (Apart z.io) t) (some-injective x o (rw (y) at e)) s.0)
  | inr n ↦ rw (n) (apart n, erase-Apart k t o (rw (n) at e) s.1)
]
  where
    found_in :
        (u : List (P2pKey × Offer)) → find same_key k u ≡ some o → All (Apart x.io) u → o.io ≢ x.io
    found_in [] f a = cc
    found_in ((key', z) ∷ u) f a = elim (Bool-cases (same_key key' k)) [
      | inl y ↦ subst (λ (w : Offer). w.io ≢ x.io) (some-injective z o (rw (y) at f)) a.0
      | inr n ↦ found_in u (rw (n) at f) a.1
    ]

    apart : same_key key k ≡ false → x.io ≢ o.io
    apart n h = found_in t (rw (n) at e) s.0 (sym h)

side_of-Alive :
    (r : Role) (q : Post) (s : Store) → s.live q.buffer.handle ≡ true → Alive s.live (side_of r q s)
side_of-Alive send q s h = tt
side_of-Alive recv q s h = h

-- The three facts on offers, for lists that are known by equations.
keeps :
    (elsewhere : ℕ → ℕ) (after : Market) {live : ℕ → Bool} {ios : List Io}
    {t : List (P2pKey × Offer)}
    → IsMarket after
    → after.offers ≡ t
    → after.store.ios ≡ ios
    → after.store.live ≡ live
    → ((h : ℕ) → after.store.pending_refs h ≡ elsewhere h + total same_key (taken_by h) t)
    → All (Holds live ios) t
    → Single t
    → Sound elsewhere after
keeps elsewhere after {live = live} {ios = ios} {t = t} v e i l c h s = record {
  formed = v;
  counted = λ x. c x ∙ ap (λ u. elsewhere x + total same_key (taken_by x) u) (sym e);
  holds =
      subst (λ u. All (Holds after.store.live after.store.ios) u) (sym e)
        (subst (λ b. All (Holds b after.store.ios) t) (sym l)
          (subst (λ b. All (Holds live b) t) (sym i) h));
  single = subst Single (sym e) s;
}

pub spec_post-Sound :
    (elsewhere : ℕ → ℕ) (q : Post) (m : Market)
    → m.store.live q.buffer.handle ≡ true
    → Sound elsewhere m
    → Sound elsewhere (spec_post q m)
spec_post-Sound elsewhere q m lives v = go (spec_post-Changes q m) (spec_post-IsMarket q m v.formed)
  where
    ios : List Io
    ios = m.store.ios

    known : All (λ x. IsOffer (length ios) x × Holds m.store.live ios x) m.offers
    known = All-zip _ _ m.offers v.formed.1 v.holds

    go : {after : Market} → Changes q m after → IsMarket after → Sound elsewhere after
    go {after} (Changes.enters {side = side} e s t i r l) w =
        keeps elsewhere after w t i l
          (λ h. ap (λ (f : ℕ → ℕ). f h) r ∙ hold_lem h side m.store ∙ omega (arith, v.counted h))
          (
            (
              subst (Alive m.store.live) (sym s) (side_of-Alive q.role q m.store lives),
              get_elem?-new ios held_io,
            ),
            All-map m.offers (λ x k. (k.1.0, get_elem?-old ios x.1.io held_io k.0.0 ∙ k.1.1)) known,
          )
          (All-map m.offers (λ x k y. omega (arith, k.0, y)) v.formed.1, v.single)
    go {after} (Changes.erases {o = o} {side = side} f io e s t i r l) w =
        let left = All-erase same_key _ q.key m.offers known in
        let apart = erase-Apart q.key m.offers o e v.single in
        let both = All-zip _ _ (erase same_key q.key m.offers) left apart in
        keeps elsewhere after w t i l
          (λ h.
            ap (λ (f : ℕ → ℕ). f h) r
            ∙ let_go_lem h side m.store
            ∙ omega (
              arith,
              v.counted h,
              total-erase same_key (taken_by h) q.key m.offers e,
              ap (taken h) s,
            ))
          (All-map (erase same_key q.key m.offers)
            (λ x k. (
              k.0.1.0,
              get_elem?-old (update_at o.io f ios) x.1.io io
                    (omega (arith, k.0.0.0, length-update_at o.io f ios))
                  ∙ get_elem?-update_at_ne o.io x.1.io f ios (λ y. k.1 (sym y))
                  ∙ k.0.1.1,
            ))
            both)
          (erase-Single q.key m.offers v.single)
