-- ===== src/Protocol/Stream/Laws.antt =====
-- What the two loops guarantee, whatever the system answers.
use flume_ascend_host_bypass.Prelude.{
  ℕ, zero, suc, ◌+◌, ◌-◌, ◌≤◌, ◌≡◌, refl, ap, sym, ◌∙◌, List, [], ◌∷◌, ◌++◌, length, take, drop,
  arith, append_assoc, append-nil, subst, take-append-drop, length-append, length-drop,
}
use flume_ascend_host_bypass.Protocol.Stream.{Sent, Received, took, got, ok, write_all, read_all}

-- A call puts a part of the data on the wire, in order and from its front, and all of it when it
-- succeeds.
pub write_all_prefix :
    (next : List Sent) (bytes wire : List ℕ)
    → (sent : List ℕ) × (rest : List ℕ) × (bytes ≡ sent ++ rest)
      × ((write_all next bytes wire).1.wire ≡ wire ++ sent)
      × (((write_all next bytes wire).0 ≡ ok tt) → rest ≡ [])
unfolding write_all
write_all_prefix next [] wire = ([], [], refl, sym (append-nil wire), λ _. refl)
write_all_prefix [] (b ∷ rest) wire = ([], b ∷ rest, refl, sym (append-nil wire), λ e. cc)
write_all_prefix (Sent.interrupted ∷ next) (b ∷ rest) wire = write_all_prefix next (b ∷ rest) wire
write_all_prefix (Sent.failed errno ∷ next) (b ∷ rest) wire =
    ([], b ∷ rest, refl, sym (append-nil wire), λ e. cc)
write_all_prefix (took zero ∷ next) (b ∷ rest) wire =
    ([], b ∷ rest, refl, sym (append-nil wire), λ e. cc)
write_all_prefix (took (suc n) ∷ next) (b ∷ rest) wire =
    let (sent, left, e, w, d) = write_all_prefix next (drop n rest) (wire ++ (b ∷ take n rest)) in
    (
      b ∷ (take n rest ++ sent),
      left,
      ap (◌∷◌ b) (
          sym (take-append-drop n rest)
          ∙ ap (◌++◌ (take n rest)) e
          ∙ sym (append_assoc (take n rest) sent left)),
      w ∙ append_assoc wire (b ∷ take n rest) sent,
      d,
    )

pub write_all-ok :
    (answers : List Sent) (bytes wire : List ℕ)
    → (write_all answers bytes wire).0 ≡ ok tt
    → (write_all answers bytes wire).1.wire ≡ wire ++ bytes
write_all-ok answers bytes wire e =
    let (sent, rest, p, w, d) = write_all_prefix answers bytes wire in
    w ∙ ap (◌++◌ wire) (sym (p ∙ ap (◌++◌ sent) (d e) ∙ append-nil sent))

-- Answers under which the system takes bytes until none is left: no error, and no end.
pub data Takes : List Sent → ℕ → Type 0 where
  enough : {answers : List Sent} → Takes answers 0
  again : {answers : List Sent} {n : ℕ} → Takes answers n → Takes (Sent.interrupted ∷ answers) n
  some_of :
      {answers : List Sent} {n : ℕ} (k : ℕ)
      → Takes answers (n - k)
      → Takes (took (suc k) ∷ answers) (suc n)

-- WriteAll succeeds where the system takes bytes, call after call and between interruptions, until
-- none is left.
pub write_all_total :
    (answers : List Sent) (bytes wire : List ℕ) (n : ℕ)
    → n ≡ length bytes
    → Takes answers n
    → (write_all answers bytes wire).0 ≡ ok tt
unfolding write_all
write_all_total answers [] wire n e t = refl
write_all_total answers (b ∷ rest) wire n e enough = absurd (omega arith)
write_all_total _ (b ∷ rest) wire n e (again t) = write_all_total _ (b ∷ rest) wire n e t
write_all_total _ (b ∷ rest) wire n e (some_of {n = m} k t) =
    write_all_total _ (drop k rest) _ (m - k) (omega (arith, length-drop k rest)) t

-- The system hands out `bytes`, all of them, to a call that asks for n, in chunks of its choice, no
-- chunk empty or longer than what is still asked for; interruptions do no harm.
pub data Delivers : ℕ → List ℕ → List Received → List Received → Type 0 where
  none_left : {answers : List Received} → Delivers 0 [] answers answers
  again :
      {n : ℕ} {bytes : List ℕ} {answers after : List Received}
      → Delivers (suc n) bytes answers after
      → Delivers (suc n) bytes (Received.interrupted ∷ answers) after
  chunk :
      {n m : ℕ} {bytes : List ℕ} {answers after : List Received} (b : ℕ) (bs : List ℕ)
      → m ≡ length bs + n
      → Delivers n bytes answers after
      → Delivers (suc m) (b ∷ (bs ++ bytes)) (got (b ∷ bs) ∷ answers) after

pub Delivers-length :
    {n : ℕ} {bytes : List ℕ} {answers after : List Received}
    → Delivers n bytes answers after
    → length bytes ≡ n
Delivers-length none_left = refl
Delivers-length (again d) = Delivers-length d
Delivers-length (chunk {bytes = bytes} b bs e d) =
    omega (arith, Delivers-length d, length-append bs bytes)

pub read_all-Delivers :
    {n : ℕ} {bytes : List ℕ} {answers after : List Received} (buffer : List ℕ)
    → Delivers n bytes answers after
    → read_all answers n buffer ≡ (ok (buffer ++ bytes), after)
unfolding read_all
read_all-Delivers buffer (none_left {answers = answers}) =
    ap (λ b. (ok b, answers)) (sym (append-nil buffer))
read_all-Delivers buffer (again d) = read_all-Delivers buffer d
read_all-Delivers buffer (chunk {bytes = bytes} {answers = answers} {after = after} b bs e d) =
    ap (λ k. read_all answers k (buffer ++ (b ∷ bs))) (omega arith)
    ∙ read_all-Delivers (buffer ++ (b ∷ bs)) d
    ∙ ap (λ l. (ok l, after)) (append_assoc buffer (b ∷ bs) bytes)

-- A call that asks for nothing reads nothing.
pub Delivers-none :
    {n : ℕ} {bytes : List ℕ} {answers after : List Received}
    → Delivers n bytes answers after
    → n ≡ 0
    → (bytes ≡ []) × (answers ≡ after)
Delivers-none none_left e = (refl, refl)
Delivers-none (again d) e = absurd (omega arith)
Delivers-none (chunk b bs l d) e = absurd (omega arith)

-- recv never answers with more than it was asked for.
abbrev pub Within : List Received → ℕ → Type 0
Within answers zero = Unit {0}
Within [] (suc n) = Unit {0}
Within (Received.interrupted ∷ next) (suc n) = Within next (suc n)
Within (Received.failed errno ∷ next) (suc n) = Unit {0}
Within (got [] ∷ next) (suc n) = Unit {0}
Within (got (b ∷ bs) ∷ next) (suc n) = (length bs ≤ n) × Within next (n - length bs)

-- Where recv answers with no more than it was asked for, a ReadAll that succeeds has appended
-- exactly as many bytes as asked for, and these are the bytes that the answers it used delivered.
read_all_inv :
    (answers : List Received) (n : ℕ) (buffer : List ℕ) {out : List ℕ} {after : List Received}
    → Within answers n
    → read_all answers n buffer ≡ (ok out, after)
    → (bytes : List ℕ) × (out ≡ buffer ++ bytes)
      × (length bytes ≡ n)
      × Delivers n bytes answers after
unfolding read_all
read_all_inv answers zero buffer w e =
    ([], cc (append-nil buffer), refl, subst (Delivers 0 [] answers) (cc) none_left)
read_all_inv [] (suc n) buffer w e = cc
read_all_inv (Received.interrupted ∷ next) (suc n) buffer w e =
    let (bytes, o, l, d) = read_all_inv next (suc n) buffer w e in (bytes, o, l, again d)
read_all_inv (Received.failed errno ∷ next) (suc n) buffer w e = cc
read_all_inv (got [] ∷ next) (suc n) buffer w e = cc
read_all_inv (got (b ∷ bs) ∷ next) (suc n) buffer w e =
    let (bytes, o, l, d) = read_all_inv next (n - length bs) (buffer ++ (b ∷ bs)) w.1 e in
    (
      b ∷ (bs ++ bytes),
      o ∙ append_assoc buffer (b ∷ bs) bytes,
      omega (arith, length-append bs bytes, w.0),
      chunk b bs (omega (arith, w.0)) d,
    )
