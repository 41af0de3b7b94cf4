-- ===== src/Client/Sim/Laws.antt =====
-- The list of the requests and the counts of references, under the operations of the store.
use flume_ascend_host_bypass.Prelude.{
  ℕ, zero, suc, ◌+◌, ◌-◌, ◌<◌, ◌≡◌, ◌≢◌, refl, ap, sym, ◌∙◌, some, List, [], ◌∷◌, ◌++◌, length,
  get_elem?, ◌==◌, if◌then◌else◌, Bool-cases, inl, inr, arith, ==_iff,
}
use flume_ascend_host_bypass.Client.Buffer.{Buffer}
use flume_ascend_host_bypass.Client.Io.{Io}
use flume_ascend_host_bypass.Client.Sim.{
  Store, set_at, update_at, retain_pending_buffer, release_pending_buffer, update_io, new_io,
}

pub length-update_at :
    (i : ℕ) (f : Io → Io) (ios : List Io) → length (update_at i f ios) ≡ length ios
unfolding update_at
length-update_at i f [] = refl
length-update_at zero f (io ∷ ios) = refl
length-update_at (suc i) f (io ∷ ios) = ap suc (length-update_at i f ios)

pub get_elem?-update_at :
    (i : ℕ) (f : Io → Io) (ios : List Io) (io : Io)
    → get_elem? ios i ≡ some io
    → get_elem? (update_at i f ios) i ≡ some (f io)
unfolding update_at
get_elem?-update_at i f [] io e = cc
get_elem?-update_at zero f (x ∷ ios) io e = cc
get_elem?-update_at (suc i) f (x ∷ ios) io e = get_elem?-update_at i f ios io e

pub get_elem?-update_at_ne :
    (i j : ℕ) (f : Io → Io) (ios : List Io)
    → i ≢ j
    → get_elem? (update_at i f ios) j ≡ get_elem? ios j
unfolding update_at
get_elem?-update_at_ne i j f [] h = refl
get_elem?-update_at_ne zero zero f (x ∷ ios) h = absurd (h refl)
get_elem?-update_at_ne zero (suc j) f (x ∷ ios) h = refl
get_elem?-update_at_ne (suc i) zero f (x ∷ ios) h = refl
get_elem?-update_at_ne (suc i) (suc j) f (x ∷ ios) h =
    get_elem?-update_at_ne i j f ios (λ e. h (ap suc e))

pub get_elem?-lt :
    (ios : List Io) (i : ℕ) → i < length ios → (io : Io) × (get_elem? ios i ≡ some io)
get_elem?-lt [] i h = absurd (omega arith)
get_elem?-lt (io ∷ ios) zero h = (io, refl)
get_elem?-lt (io ∷ ios) (suc i) h = get_elem?-lt ios i (omega arith)

pub get_elem?-inside :
    (ios : List Io) (i : ℕ) (io : Io) → get_elem? ios i ≡ some io → i < length ios
get_elem?-inside [] i io e = cc
get_elem?-inside (x ∷ ios) zero io e = omega arith
get_elem?-inside (x ∷ ios) (suc i) io e = omega (arith, get_elem?-inside ios i io e)

pub get_elem?-old :
    (ios : List Io) (i : ℕ) (io : Io)
    → i < length ios
    → get_elem? (ios ++ (io ∷ [])) i ≡ get_elem? ios i
get_elem?-old [] i io h = absurd (omega arith)
get_elem?-old (x ∷ ios) zero io h = refl
get_elem?-old (x ∷ ios) (suc i) io h = get_elem?-old ios i io (omega arith)

pub get_elem?-new : (ios : List Io) (io : Io) → get_elem? (ios ++ (io ∷ [])) (length ios) ≡ some io
get_elem?-new [] io = refl
get_elem?-new (x ∷ ios) io = get_elem?-new ios io

pub update_at_new :
    (f : Io → Io) (ios : List Io) (io : Io)
    → update_at (length ios) f (ios ++ (io ∷ [])) ≡ ios ++ (f io ∷ [])
unfolding update_at
update_at_new f [] io = refl
update_at_new f (x ∷ ios) io = ap (◌∷◌ x) (update_at_new f ios io)

update_at_old :
    (i : ℕ) (f : Io → Io) (ios : List Io) (io : Io)
    → i < length ios
    → update_at i f (ios ++ (io ∷ [])) ≡ update_at i f ios ++ (io ∷ [])
unfolding update_at
update_at_old i f [] io h = absurd (omega arith)
update_at_old zero f (x ∷ ios) io h = refl
update_at_old (suc i) f (x ∷ ios) io h = ap (◌∷◌ x) (update_at_old i f ios io (omega arith))

-- The newest request and an older one are updated in turn.
module _ (i : ℕ) (f g : Io → Io) (ios : List Io) (io : Io) (h : i < length ios) where
  pub update_at_both :
      update_at (length ios) g (update_at i f (ios ++ (io ∷ []))) ≡ update_at i f ios ++ (g io ∷ [])
  update_at_both =
      ap (update_at (length ios) g) (update_at_old i f ios io h)
      ∙ ap (λ n. update_at n g (update_at i f ios ++ (io ∷ []))) (sym (length-update_at i f ios))
      ∙ update_at_new g (update_at i f ios) io

  pub update_at_back :
      update_at i f (update_at (length ios) g (ios ++ (io ∷ []))) ≡ update_at i f ios ++ (g io ∷ [])
  update_at_back = ap (update_at i f) (update_at_new g ios io) ∙ update_at_old i f ios (g io) h

-- An update of the newest request, and of an older one.
pub update_io_new :
    (f : Io → Io) (io : Io) (s : Store) → update_io (length s.ios) f (new_io io s) ≡ new_io (f io) s
unfolding update_io new_io
update_io_new f io s = ap (λ l. record s { ios = l }) (update_at_new f s.ios io)

update_io_old :
    (i : ℕ) (f : Io → Io) (io : Io) (s : Store)
    → i < length s.ios
    → update_io i f (new_io io s) ≡ new_io io (update_io i f s)
unfolding update_io new_io
update_io_old i f io s h = ap (λ l. record s { ios = l }) (update_at_old i f s.ios io h)

-- A reference that is taken and given back leaves the counts as they were.
pub release-retain :
    (b : Buffer) (s : Store) → release_pending_buffer b (retain_pending_buffer b s) ≡ s
unfolding release_pending_buffer retain_pending_buffer set_at
release-retain b s = λ i. record s { pending_refs = λ h. same h i }
  where
    same :
        (h : ℕ)
        → (if h == b.handle
            then (if b.handle == b.handle
                then s.pending_refs b.handle + 1
                else s.pending_refs b.handle)
              - 1
            else if h == b.handle
            then s.pending_refs b.handle + 1
            else s.pending_refs h)
          ≡ s.pending_refs h
    same h = elim (Bool-cases (h == b.handle)) [
      | inl e ↦ ground (arith, e, ap s.pending_refs ((==_iff h b.handle).0 e))
      | inr n ↦ ground (arith, n)
    ]
