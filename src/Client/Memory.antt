-- ===== src/Client/Memory.antt =====
-- The memory of the process, byte by byte, with memcpy as a load and a store.
use flume_ascend_host_bypass.Prelude.{
  ℕ, zero, suc, ◌+◌, ◌-◌, ◌≤◌, ◌<◌, ◌≡◌, ◌⊎◌, refl, ap, ap₂, ◌∙◌, ◌&&◌, List, [], ◌∷◌, length,
  get_or, leb, ltb, if◌then◌else◌, arith,
}

abbrev pub Memory : Type 0
Memory = ℕ → ℕ

unfoldable pub load : Memory → ℕ → ℕ → List ℕ
load m p zero = []
load m p (suc n) = m p ∷ load m (p + 1) n

unfoldable pub store : Memory → ℕ → List ℕ → Memory
store m p bs a = if leb p a && ltb a (p + length bs) then get_or bs (a - p) 0 else m a

load_cong :
    (m m' : Memory) (p n : ℕ)
    → ((a : ℕ) → p ≤ a → a < p + n → m a ≡ m' a)
    → load m p n ≡ load m' p n
unfolding load
load_cong m m' p zero h = refl
load_cong m m' p (suc n) h =
    ap₂ ◌∷◌ (h p (omega arith) (omega arith))
      (load_cong m m' (p + 1) n (λ a x y. h a (omega (arith, x)) (omega (arith, y))))

pub length-load : (m : Memory) (p n : ℕ) → length (load m p n) ≡ n
unfolding load
length-load m p zero = refl
length-load m p (suc n) = ap suc (length-load m (p + 1) n)

store_tail :
    (m : Memory) (p b : ℕ) (bs : List ℕ) (a : ℕ)
    → p + 1 ≤ a
    → a < p + 1 + length bs
    → store m p (b ∷ bs) a ≡ store m (p + 1) bs a
unfolding store
store_tail m p b bs a x y = ground (arith, tail_at b bs (a - p))
  where
    tail_at : (b : ℕ) (bs : List ℕ) (i : ℕ) → 1 ≤ i → get_or (b ∷ bs) i 0 ≡ get_or bs (i - 1) 0
    tail_at b bs zero h = absurd (omega arith)
    tail_at b bs (suc i) h = ap (λ k. get_or bs k 0) (omega arith)

-- What has been stored is what is loaded.
pub load-store : (m : Memory) (p : ℕ) (bs : List ℕ) → load (store m p bs) p (length bs) ≡ bs
unfolding load
load-store m p [] = refl
load-store m p (b ∷ bs) = ap₂ ◌∷◌ (unfold store in ground arith) (
    load_cong (store m p (b ∷ bs)) (store m (p + 1) bs) (p + 1) (length bs) (store_tail m p b bs)
    ∙ load-store m (p + 1) bs)

-- A store changes nothing outside its range.
pub load_apart :
    (m : Memory) (p n q : ℕ) (bs : List ℕ)
    → (p + n ≤ q) ⊎ (q + length bs ≤ p)
    → load (store m q bs) p n ≡ load m p n
load_apart m p n q bs h =
    load_cong (store m q bs) m p n (λ a x y. unfold store in ground (arith, h, x, y))
