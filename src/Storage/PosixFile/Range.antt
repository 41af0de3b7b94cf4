-- ===== src/Storage/PosixFile/Range.antt =====
-- What `read` returns: the bytes of the file in the range, cut off at the end of the file.
use flume_ascend_host_bypass.Prelude.{
  ℕ, zero, suc, ◌+◌, ◌-◌, ◌%◌, ◌^◌, ◌≤◌, ◌<◌, ◌≡◌, refl, ap, ap₂, sym, ◌∙◌, ◌⊎◌, inl, inr, List, [],
  ◌∷◌, ◌++◌, length, take, drop, All, arith, append_assoc, append-nil, length-append, length-take,
}
use flume_ascend_host_bypass.Protocol.Stream.{Received, got}
use flume_ascend_host_bypass.Storage.System.{allocated, System}
use flume_ascend_host_bypass.Storage.PosixFile.{bytes, read_loop, read}

-- pread, asked for a positive number of bytes at an offset of a file that holds `content`, hands out
-- at least one of them and no more than asked for, and none only behind the end; or it answers -1.
abbrev pub Chunk : List ℕ → (ℕ → ℕ → Received) → ℕ → ℕ → Type 0
Chunk content ask n offset =
    (k : ℕ) × (k ≤ n) × (ask (suc n) offset ≡ got (take (suc k) (drop offset content)))

abbrev pub IsPread : List ℕ → (ℕ → ℕ → Received) → Type 0
IsPread content ask =
    (n offset : ℕ)
    → Chunk content ask n offset
      ⊎ ((ask (suc n) offset ≡ Received.interrupted)
          ⊎ ((e : ℕ) × (ask (suc n) offset ≡ Received.failed e)))

module _ {ℓ} {A : Type ℓ} where
  take_none : (n : ℕ) → take {A = A} n [] ≡ []
  take_none zero = refl
  take_none (suc n) = refl

  drop_none : (n : ℕ) → drop {A = A} n [] ≡ []
  drop_none zero = refl
  drop_none (suc n) = refl

  take_split :
      (k n : ℕ) (xs : List A)
      → k ≤ n
      → take n xs ≡ take k xs ++ take (n - length (take k xs)) (drop (length (take k xs)) xs)
  take_split zero n xs h = ap (λ m. take m xs) (omega arith)
  take_split (suc k) zero xs h = absurd (omega arith)
  take_split (suc k) (suc n) [] h = sym (take_none (suc n - 0))
  take_split (suc k) (suc n) (x ∷ xs) h = ap (◌∷◌ x) (
      take_split k n xs (omega arith)
      ∙ ap (λ m. take k xs ++ take m (drop (length (take k xs)) xs)) (omega arith))

  drop-drop : (m n : ℕ) (xs : List A) → drop n (drop m xs) ≡ drop (m + n) xs
  drop-drop zero n xs = ap (λ k. drop k xs) (omega arith)
  drop-drop (suc m) n [] = drop_none n ∙ sym (drop_none (suc m + n))
  drop-drop (suc m) n (x ∷ xs) =
      drop-drop m n xs ∙ ap (λ k. drop k (x ∷ xs)) {x = suc (m + n)} (omega arith)

-- One chunk, and what is then still wanted.
chunk_then :
    (content : List ℕ) (k n offset b : ℕ) (bs buffer : List ℕ)
    → k ≤ n
    → take (suc k) (drop (offset + length buffer) content) ≡ b ∷ bs
    → (buffer ++ (b ∷ bs))
        ++ take (n - length bs) (drop (offset + length (buffer ++ (b ∷ bs))) content)
      ≡ buffer ++ take (suc n) (drop (offset + length buffer) content)
chunk_then content k n offset b bs buffer h e =
    append_assoc buffer (b ∷ bs) _
    ∙ ap (◌++◌ buffer) (
        sym (
          take_split (suc k) (suc n) (drop (offset + length buffer) content) (omega arith)
          ∙ ap
              (λ c.
                c
                ++ take (suc n - length c)
                    (drop (length c) (drop (offset + length buffer) content)))
              e
          ∙ ap (◌++◌ (b ∷ bs)) (
              ap (λ c. take (suc n - suc (length bs)) c)
                (drop-drop (offset + length buffer) (suc (length bs)) content)
              ∙ ap₂ (λ m p. take m (drop p content)) (omega arith)
                  (omega (arith, length-append buffer (b ∷ bs))))))

nothing_left : (k n : ℕ) (xs : List ℕ) → take (suc k) xs ≡ [] → take n xs ≡ []
nothing_left k n [] e = take_none n
nothing_left k n (x ∷ xs) e = cc

shorter : (k b : ℕ) (bs xs : List ℕ) → take (suc k) xs ≡ b ∷ bs → length bs ≤ k
shorter k b bs xs e = omega (arith, ap length e, length-take (suc k) xs)

-- What one answer that holds bytes does to the loop, given what the rest of it does.
chunk_round :
    (content : List ℕ) (asks : List (ℕ → ℕ → Received)) (k n offset : ℕ) (buffer c : List ℕ)
    {out : List ℕ}
    → k ≤ n
    → take (suc k) (drop (offset + length buffer) content) ≡ c
    → ((b : ℕ) (bs : List ℕ)
        → length bs ≤ k
        → read_loop asks offset (n - length bs) (buffer ++ (b ∷ bs)) ≡ bytes out
        → out
          ≡ (buffer ++ (b ∷ bs))
            ++ take (n - length bs) (drop (offset + length (buffer ++ (b ∷ bs))) content))
    → (elim c [
      | [] ↦ bytes buffer
      | b ∷ bs ↦ read_loop asks offset (n - length bs) (buffer ++ (b ∷ bs))
    ])
      ≡ bytes out
    → out ≡ buffer ++ take (suc n) (drop (offset + length buffer) content)
chunk_round content asks k n offset buffer [] h c rest e =
    cc (append-nil buffer, nothing_left k (suc n) (drop (offset + length buffer) content) c)
chunk_round content asks k n offset buffer (b ∷ bs) h c rest e =
    rest b bs (shorter k b bs (drop (offset + length buffer) content) c) e
    ∙ chunk_then content k n offset b bs buffer h c

-- Every answer is one of pread's, as long as the offsets do not pass the width of the offset.
read_loop_range :
    (content : List ℕ) (asks : List (ℕ → ℕ → Received)) (offset left : ℕ) (buffer : List ℕ)
    {out : List ℕ}
    → All (IsPread content) asks
    → offset + length buffer + left < 2 ^ 64
    → read_loop asks offset left buffer ≡ bytes out
    → out ≡ buffer ++ take left (drop (offset + length buffer) content)
unfolding read_loop
read_loop_range content asks offset zero buffer p h e = cc (append-nil buffer)
read_loop_range content [] offset (suc left) buffer p h e = cc
read_loop_range content (ask ∷ asks) offset (suc left) buffer {out} (p, ps) h e =
    let here : (offset + length buffer) % 2 ^ 64 ≡ offset + length buffer = omega arith in
    elim (p left (offset + length buffer)) [
      | inl (k, kn, a) ↦
          chunk_round content asks k left offset buffer _ kn refl
            (λ b bs l q.
              read_loop_range content asks offset (left - length bs) (buffer ++ (b ∷ bs)) ps
                (omega (arith, length-append buffer (b ∷ bs))) q)
            (rw (here, a, read_loop) at e)
      | inr (inl a) ↦
          read_loop_range content asks offset (suc left) buffer ps h (rw (here, a, read_loop) at e)
      | inr (inr (n, a)) ↦ cc (rw (here, a, read_loop) at e)
    ]

-- Where every call of pread answers with bytes of a file's content from the position asked for, at
-- least one unless it is at the end, or with an error, and the range does not pass 2 ^ 64, a Read
-- that succeeds returns the content from the offset on, as many bytes as asked for or up to its
-- end.
pub read-range :
    (sys : System) (content : List ℕ) (offset size : ℕ) {out : List ℕ}
    → All (IsPread content) sys.preads
    → offset + size < 2 ^ 64
    → read sys offset size ≡ bytes out
    → out ≡ take size (drop offset content)
unfolding read
read-range sys content offset size {out} p h e =
    read_loop_range content sys.preads offset size [] p (omega arith) (ground arith)
    ∙ ap (λ m. take size (drop m content)) (omega arith)

total_round :
    (asks : List (ℕ → ℕ → Received)) (left offset : ℕ) (buffer c : List ℕ)
    → ((b : ℕ) (bs : List ℕ)
        → (out : List ℕ) × (read_loop asks offset (left - length bs) (buffer ++ (b ∷ bs))
            ≡ bytes out))
    → (out : List ℕ) × ((elim c [
      | [] ↦ bytes buffer
      | b ∷ bs ↦ read_loop asks offset (left - length bs) (buffer ++ (b ∷ bs))
    ])
        ≡ bytes out)
total_round asks left offset buffer [] rest = (buffer, refl)
total_round asks left offset buffer (b ∷ bs) rest = rest b bs

read_loop_total :
    (content : List ℕ) (asks : List (ℕ → ℕ → Received)) (offset left : ℕ) (buffer : List ℕ)
    → All (λ ask. (n at : ℕ) → Chunk content ask n at) asks
    → left ≤ length asks
    → (out : List ℕ) × (read_loop asks offset left buffer ≡ bytes out)
unfolding read_loop
read_loop_total content asks offset zero buffer p h = (buffer, refl)
read_loop_total content [] offset (suc left) buffer p h = absurd (omega arith)
read_loop_total content (ask ∷ asks) offset (suc left) buffer (p, ps) h =
    let (k, kn, a) = p left ((offset + length buffer) % 2 ^ 64) in
    rw (a, read_loop)
      (total_round asks left offset buffer _ (λ b bs.
        read_loop_total content asks offset (left - length bs) (buffer ++ (b ∷ bs)) ps
          (omega arith)))

-- A Read returns bytes where the allocation succeeds, no call of pread is interrupted or fails, and
-- there are at least as many calls to come as bytes asked for.
pub read_total :
    (sys : System) (content : List ℕ) (offset size : ℕ)
    → sys.allocates size ≡ allocated
    → All (λ ask. (n at : ℕ) → Chunk content ask n at) sys.preads
    → size ≤ length sys.preads
    → (out : List ℕ) × (read sys offset size ≡ bytes out)
unfolding read
read_total sys content offset size a p h =
    rw (read, a) (read_loop_total content sys.preads offset size [] p h)
