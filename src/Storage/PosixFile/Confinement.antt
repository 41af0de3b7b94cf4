-- ===== src/Storage/PosixFile/Confinement.antt =====
-- A path that resolve_path lets through lies inside the storage root.
use flume_ascend_host_bypass.Prelude.{
  ℕ, zero, suc, ◌≤◌, take_all, ◌<◌, ◌≡◌, refl, ap, sym, ◌∙◌, ◌⊎◌, inl, inr, true, false, List, [],
  ◌∷◌, ◌++◌, length, take, drop, get_or, arith, take-append-drop,
}
use flume_ascend_host_bypass.Prelude.Text.{same_bytes, same_bytes→eq}
use flume_ascend_host_bypass.Storage.System.{System, Canonical, path, throws}
use flume_ascend_host_bypass.Storage.PosixFile.{
  canonicalization_failed, ok, err, slash, contains, has_parent, strip_slash, escapes, check_root,
  canonicalize, resolve_path,
}

-- The root itself, or what lies below it.
pub data Inside (root : List ℕ) : List ℕ → Type 0 where
  everywhere : {full : List ℕ} → root ≡ slash ∷ [] → Inside root full
  itself : {full : List ℕ} → full ≡ root → Inside root full
  below : {full : List ℕ} (rest : List ℕ) → full ≡ root ++ (slash ∷ rest) → Inside root full

slash_next :
    (xs : List ℕ) (n : ℕ)
    → n < length xs
    → get_or xs n 0 ≡ slash
    → (rest : List ℕ) × (drop n xs ≡ slash ∷ rest)
slash_next [] n h e = absurd (omega arith)
slash_next (x ∷ xs) zero h e = (xs, ap (λ c. c ∷ xs) e)
slash_next (x ∷ xs) (suc n) h e = slash_next xs n (omega arith) e

escapes_cases :
    (root full : List ℕ)
    → escapes root full ≡ false
    → (same_bytes root (slash ∷ []) ≡ true)
      ⊎ ((length root ≤ length full)
          × (same_bytes (take (length root) full) root ≡ true)
          × ((length full ≤ length root)
              ⊎ ((length root < length full) × (get_or full (length root) 0 ≡ slash))))
unfolding escapes
escapes_cases root full h = ground arith

escapes-Inside : (root full : List ℕ) → escapes root full ≡ false → Inside root full
escapes-Inside root full h = elim (escapes_cases root full h) [
  | inl top ↦ everywhere (same_bytes→eq root (slash ∷ []) top)
  | inr (longer, front, inl short) ↦
      itself (sym (take_all (length root) full short) ∙ same_bytes→eq _ root front)
  | inr (longer, front, inr (more, sep)) ↦
      let (rest, e) = slash_next full (length root) more sep in
      below rest (
        sym (take-append-drop (length root) full)
        ∙ ap (λ xs. xs ++ drop (length root) full) (same_bytes→eq _ root front)
        ∙ ap (◌++◌ root) e)
]

checked :
    (sys : System) (root requested : List ℕ) {full : List ℕ}
    → resolve_path sys root requested ≡ ok full
    → (canonicalize sys root requested ≡ ok full)
      × (contains 0 requested ≡ false)
      × (sys.is_absolute requested ≡ false)
      × (has_parent (sys.components requested) ≡ false)
unfolding resolve_path
checked sys root requested h = ground arith

canonicalize-ok :
    (sys : System) (root requested : List ℕ) {full : List ℕ}
    → canonicalize sys root requested ≡ ok full
    → (base : List ℕ) × (sys.weakly_canonical root ≡ path base)
      × (sys.weakly_canonical (sys.join root requested) ≡ path full)
      × (escapes (strip_slash base) full ≡ false)
unfolding canonicalize
canonicalize-ok sys root requested {full} h =
    go (sys.weakly_canonical root) (sys.weakly_canonical (sys.join root requested)) refl refl h
  where
    go :
        (a b : Canonical)
        → sys.weakly_canonical root ≡ a
        → sys.weakly_canonical (sys.join root requested) ≡ b
        → (elim a [
          | throws what ↦ err (canonicalization_failed what)
          | path root' ↦ elim b [
            | throws what ↦ err (canonicalization_failed what)
            | path out ↦ check_root (strip_slash root') out
          ]
        ])
          ≡ ok full
        → (base : List ℕ) × (sys.weakly_canonical root ≡ path base)
          × (sys.weakly_canonical (sys.join root requested) ≡ path full)
          × (escapes (strip_slash base) full ≡ false)
    go (throws what) b ea eb h = cc
    go (path base) (throws what) ea eb h = cc
    go (path base) (path out) ea eb h = (base, ea, ground arith, ground arith)

-- A path that ResolvePath accepts is the canonical form of the root joined with what was asked for,
-- and it is the canonical root without its last slash or lies below it (or that root is the slash
-- alone); what was asked for has no NUL byte, is not absolute and has no parent component.
pub resolve_path-Inside :
    (sys : System) (root requested : List ℕ) {full : List ℕ}
    → resolve_path sys root requested ≡ ok full
    → (base : List ℕ) × (sys.weakly_canonical root ≡ path base)
      × (sys.weakly_canonical (sys.join root requested) ≡ path full)
      × Inside (strip_slash base) full
      × (contains 0 requested ≡ false)
      × (sys.is_absolute requested ≡ false)
      × (has_parent (sys.components requested) ≡ false)
resolve_path-Inside sys root requested h =
    let (c, nul, abs, parent) = checked sys root requested h in
    let (base, b, f, inside) = canonicalize-ok sys root requested c in
    (base, b, f, escapes-Inside (strip_slash base) _ inside, nul, abs, parent)
