-- ===== src/Client/Table.antt =====
-- A std::map of pending submissions, newest first: a key that is there is entered again only after
-- it has been erased.
use flume_ascend_host_bypass.Prelude.{
  ℕ, ◌+◌, ◌≡◌, refl, ap, sym, ◌∙◌, Bool, true, false, Option, none, some, List, [], ◌∷◌, All,
  if◌then◌else◌, arith, Bool-cases, inl, inr,
}

module _ {K V : Type 0} (same : K → K → Bool) where
  unfoldable pub find : K → List (K × V) → Option V
  find k [] = none
  find k ((key, v) ∷ rest) = if same key k then some v else find k rest

  unfoldable pub erase : K → List (K × V) → List (K × V)
  erase k [] = []
  erase k ((key, v) ∷ rest) = if same key k then rest else (key, v) ∷ erase k rest

  -- Every key stands once.
  abbrev pub Distinct : List (K × V) → Type 0
  Distinct [] = Unit {0}
  Distinct ((key, v) ∷ rest) = (find key rest ≡ none) × Distinct rest

  -- What all values together add up to.
  abbrev pub total : (V → ℕ) → List (K × V) → ℕ
  total f [] = 0
  total f ((key, v) ∷ rest) = f v + total f rest

  pub total-erase :
      (f : V → ℕ) (k : K) (t : List (K × V)) {v : V}
      → find k t ≡ some v
      → total f t ≡ f v + total f (erase k t)
  unfolding find erase
  total-erase f k [] e = cc
  total-erase f k ((key, w) ∷ rest) {v} e = elim (Bool-cases (same key k)) [
    | inl y ↦ ground (arith, y, e)
    | inr n ↦ ground (arith, n, e, total-erase f k rest {v = v})
  ]

  pub erase-none : (k : K) (t : List (K × V)) → find k t ≡ none → erase k t ≡ t
  unfolding find erase
  erase-none k [] e = refl
  erase-none k ((key, w) ∷ rest) e = ground (arith, erase-none k rest)

  pub find-erase-none :
      (k other : K) (t : List (K × V)) → find other t ≡ none → find other (erase k t) ≡ none
  unfolding find erase
  find-erase-none k other [] e = refl
  find-erase-none k other ((key, w) ∷ rest) e = ground (arith, find-erase-none k other rest)

  pub erase-Distinct : (k : K) (t : List (K × V)) → Distinct t → Distinct (erase k t)
  unfolding find erase
  erase-Distinct k [] d = tt
  erase-Distinct k ((key, w) ∷ rest) d =
      ground (arith, erase-Distinct k rest d.1, find-erase-none k key rest d.0)

  pub All-erase : (P : K × V → Type 0) (k : K) (t : List (K × V)) → All P t → All P (erase k t)
  unfolding erase
  All-erase P k [] a = tt
  All-erase P k ((key, w) ∷ rest) a = elim (Bool-cases (same key k)) [
    | inl y ↦ rw (y) a.1
    | inr n ↦ rw (n) (a.0, All-erase P k rest a.1)
  ]

  -- Where the test is equality.
  module _ (same→eq : (a b : K) → same a b ≡ true → a ≡ b) where
    pub find-erase_self : (k : K) (t : List (K × V)) → Distinct t → find k (erase k t) ≡ none
    unfolding find erase
    find-erase_self k [] d = refl
    find-erase_self k ((key, w) ∷ rest) d = elim (Bool-cases (same key k)) [
      | inl y ↦ rw (y) (ap (λ a. find a rest) (sym (same→eq key k y)) ∙ d.0)
      | inr n ↦ rw (n, find, n) (find-erase_self k rest d.1)
    ]

    pub find-erase_ne :
        (k other : K) (t : List (K × V))
        → same k other ≡ false
        → find other (erase k t) ≡ find other t
    unfolding find erase
    find-erase_ne k other [] h = refl
    find-erase_ne k other ((key, w) ∷ rest) h = elim (Bool-cases (same key k)) [
      | inl y ↦ rw (y, ap (λ a. same a other) (same→eq key k y) ∙ h)
      | inr n ↦
          rw (n, find)
            (ap (λ r. if same key other then some w else r) (find-erase_ne k other rest h))
    ]
