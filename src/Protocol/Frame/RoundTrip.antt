-- ===== src/Protocol/Frame/RoundTrip.antt =====
-- What WriteFrame has put on the wire, ReadFrame reads back, however the system cuts it up.
use flume_ascend_host_bypass.Prelude.{Bool-cases, inl, inr, ltb}
use flume_ascend_host_bypass.Prelude.{
  ℕ, ◌%◌, ◌^◌, ◌≤◌, ◌<◌, ◌≡◌, ◌==◌, subst, if◌then◌else◌, refl, ap, sym, ◌∙◌, List, [], ◌∷◌, ◌++◌,
  length, drop, arith, append_assoc, append-nil,
}
use flume_ascend_host_bypass.Protocol.Words.{
  append_u16, append_u32, append_u64, be16, be32, be64, load_u16-be16, load_u32-be32, load_u64-be64,
}
use flume_ascend_host_bypass.Protocol.Stream.{
  Received, body_too_large, Outcome, ok, err, waiting, Sink, write_all, read_all,
}
use flume_ascend_host_bypass.Protocol.Stream.Laws.{
  Delivers, Delivers-none, write_all_prefix, Takes, write_all_total, Delivers-length, write_all-ok,
  read_all-Delivers,
}
use flume_ascend_host_bypass.Protocol.Frame.{
  Frame, IsFrame, max_body_size, header_size, magic, version, header, is_empty, write_body,
  write_frame, continue, frame_of, check_header, read_frame,
}

-- The header as one list.
abbrev header_bytes : Frame → List ℕ
header_bytes f =
    be32 magic
    ++ (be16 version
        ++ (be16 f.type
            ++ (be16 0
                ++ (be16 0 ++ (be64 f.request_id ++ (be32 (length f.body % 2 ^ 32) ++ be32 0))))))

header_lem : (f : Frame) → header f ≡ header_bytes f
unfolding header append_u64 append_u32 append_u16
header_lem f = refl

frame_of-header : (f : Frame) → IsFrame f → frame_of (header f) f.body ≡ f
unfolding frame_of
frame_of-header f v = rw (header_lem f) (
    ground (
      arith,
      load_u16-be16 f.type (drop 8 (header_bytes f)),
      load_u64-be64 f.request_id (drop 20 (header_bytes f)),
    ))

-- A header that WriteFrame makes passes the checks, and announces the length of the body.
read_header :
    (f : Frame) (answers : List Received)
    → IsFrame f
    → check_header (header f) answers ≡ (
        if length f.body == 0
        then (ok (frame_of (header f) []), answers)
        else continue
            (read_all answers (length f.body) [])
            (λ body rest. (ok (frame_of (header f) body), rest)))
unfolding check_header
read_header f answers v = rw (header_lem f) (
    ground (
      arith,
      load_u32-be32 magic (drop 4 (header_bytes f)),
      load_u16-be16 version (drop 6 (header_bytes f)),
      load_u32-be32 (length f.body) (drop 24 (header_bytes f)),
    ))

read_body_all :
    (f : Frame) {answers after : List Received}
    → IsFrame f
    → Delivers (length f.body) f.body answers after
    → check_header (header f) answers ≡ (ok f, after)
read_body_all f {answers} {after} v d =
    ground
      (arith, read_header f answers v, read_all-Delivers [] d, frame_of-header f v, Delivers-none d)

-- Splits of one list at one length are the same split.
append-inj :
    (xs ys us vs : List ℕ) → length xs ≡ length ys → xs ++ us ≡ ys ++ vs → (xs ≡ ys) × (us ≡ vs)
append-inj [] [] us vs l e = (refl, e)
append-inj [] (y ∷ ys) us vs l e = absurd (omega arith)
append-inj (x ∷ xs) [] us vs l e = absurd (omega arith)
append-inj (x ∷ xs) (y ∷ ys) us vs l e = ground (arith, append-inj xs ys us vs)

append-left : (xs us vs : List ℕ) → xs ++ us ≡ xs ++ vs → us ≡ vs
append-left xs us vs e = (append-inj xs xs us vs refl e).1

-- Every header has the fixed size.
length-header : (f : Frame) → length (header f) ≡ header_size
length-header f = rw (header_lem f)

-- The bytes of a frame on the wire.
pub wire_form : Frame → List ℕ
wire_form f = header f ++ f.body

written :
    (f : Frame) (o : Outcome (Unit {0}) × Sink) {t : Sink}
    → write_body f o ≡ (ok tt, t)
    → (o.0 ≡ ok tt) × (t.wire ≡ o.1.wire ++ f.body)
unfolding write_body
written f (ok tt, s) e = (refl, body f.body s e)
  where
    body :
        (b : List ℕ) (s : Sink) {t : Sink}
        → (if is_empty b then (ok tt, s) else write_all s.answers b s.wire) ≡ (ok tt, t)
        → t.wire ≡ s.wire ++ b
    body [] s e = ground (arith, append-nil s.wire)
    body (x ∷ b) s {t} e =
        sym (ap (λ p. p.1.wire) e) ∙ write_all-ok s.answers (x ∷ b) s.wire (ap (λ p. p.0) e)
written f (err x, s) e = cc
written f (waiting, s) e = cc

-- Both calls of WriteAll together: a frame that is written whole lies on the wire as its header and
-- its body.
pub write_frame-ok :
    (f : Frame) (s : Sink) {t : Sink}
    → write_frame f s ≡ (ok tt, t)
    → (t.wire ≡ s.wire ++ wire_form f) × (length f.body ≤ max_body_size)
unfolding write_frame wire_form
write_frame-ok f s {t} e = ground (
  arith,
  written f (write_all s.answers (header f) s.wire) {t = t},
  write_all-ok s.answers (header f) s.wire,
  append_assoc s.wire (header f) f.body,
)

-- A frame that fits its fields, and that WriteFrame has written whole, is what ReadFrame returns,
-- together with the answers that come after it, when recv delivers what has been written, its
-- header first and then its body, in any chunks and with any interruptions.
pub read_frame-write_frame :
    (f : Frame) (s t : Sink) (head body : List ℕ) {answers middle after : List Received}
    → IsFrame f
    → write_frame f s ≡ (ok tt, t)
    → t.wire ≡ s.wire ++ (head ++ body)
    → Delivers header_size head answers middle
    → Delivers (length f.body) body middle after
    → read_frame answers ≡ (ok f, after)
unfolding read_frame wire_form
read_frame-write_frame f s t head body {answers} {middle} {after} v e w dh db =
    ap (λ r. continue r check_header) (read_all-Delivers [] dh)
    ∙ ap (λ h. check_header h middle) (sym cut.0)
    ∙ read_body_all f v (subst (λ b. Delivers (length f.body) b middle after) (sym cut.1) db)
  where
    whole : header f ++ f.body ≡ head ++ body
    whole = append-left s.wire _ _ (sym (write_frame-ok f s e).0 ∙ w)

    cut : (header f ≡ head) × (f.body ≡ body)
    cut = append-inj (header f) head f.body body (length-header f ∙ sym (Delivers-length dh)) whole

write_body_total :
    (f : Frame) (o : Outcome (Unit {0}) × Sink)
    → o.0 ≡ ok tt
    → Takes o.1.answers (length f.body)
    → (write_body f o).0 ≡ ok tt
unfolding write_body
write_body_total f (ok tt, s) e t =
    ground (arith, write_all_total s.answers f.body s.wire (length f.body) refl t)
write_body_total f (err x, s) e t = cc
write_body_total f (waiting, s) e t = cc

-- WriteFrame succeeds on a frame that fits its fields where the system takes bytes, call after call
-- and between interruptions, until none is left, first of the header and then of the body.
pub write_frame_total :
    (f : Frame) (s : Sink)
    → IsFrame f
    → Takes s.answers header_size
    → Takes (write_all s.answers (header f) s.wire).1.answers (length f.body)
    → (write_frame f s).0 ≡ ok tt
unfolding write_frame
write_frame_total f s v th tb = ground (
  arith,
  write_body_total f (write_all s.answers (header f) s.wire),
  write_all_total s.answers (header f) s.wire header_size (sym (length-header f)) th,
)

-- A body that is too large is refused before anything is sent.
write_frame_too_large :
    (f : Frame) (s : Sink)
    → max_body_size < length f.body
    → write_frame f s ≡ (err body_too_large, s)
unfolding write_frame
write_frame_too_large f s h = ground arith

body_prefix :
    (f : Frame) (wire head sent rest : List ℕ) (o : Outcome (Unit {0}) × Sink)
    → head ≡ sent ++ rest
    → o.1.wire ≡ wire ++ sent
    → (o.0 ≡ ok tt → rest ≡ [])
    → (part left : List ℕ) × (head ++ f.body ≡ part ++ left)
      × ((write_body f o).1.wire ≡ wire ++ part)
unfolding write_body
body_prefix f wire head sent rest (ok tt, s) e w d = body f.body
  where
    body :
        (b : List ℕ)
        → (part left : List ℕ) × (head ++ b ≡ part ++ left)
          × ((if is_empty b then (ok tt, s) else write_all s.answers b s.wire).1.wire
              ≡ wire ++ part)
    body [] = (sent, [], ground (arith, e, d, append-nil head, append-nil sent), w)
    body (x ∷ b) =
        let (sent', left, e', w', _) = write_all_prefix s.answers (x ∷ b) s.wire in
        (
          head ++ sent',
          left,
          ap (◌++◌ head) e' ∙ sym (append_assoc head sent' left),
          w'
              ∙ ap (λ y. y ++ sent')
                  (w
                    ∙ ap (◌++◌ wire)
                        (sym (append-nil sent) ∙ ap (◌++◌ sent) (sym (d refl)) ∙ sym e))
              ∙ append_assoc wire head sent',
        )
body_prefix f wire head sent rest (err x, s) e w d =
    (sent, rest ++ f.body, ap (λ y. y ++ f.body) e ∙ append_assoc sent rest f.body, w)
body_prefix f wire head sent rest (waiting, s) e w d =
    (sent, rest ++ f.body, ap (λ y. y ++ f.body) e ∙ append_assoc sent rest f.body, w)

-- Whatever the outcome of WriteFrame, what it has put on the wire is a front of the frame's bytes.
pub write_frame_prefix :
    (f : Frame) (s : Sink)
    → (part left : List ℕ) × (wire_form f ≡ part ++ left)
      × ((write_frame f s).1.wire ≡ s.wire ++ part)
unfolding write_frame wire_form
write_frame_prefix f s = elim (Bool-cases (ltb max_body_size (length f.body))) [
  | inl big ↦ rw big ([], header f ++ f.body, refl, sym (append-nil s.wire))
  | inr fits ↦
      let (sent, rest, e, w, d) = write_all_prefix s.answers (header f) s.wire in
      rw fits (body_prefix f s.wire (header f) sent rest _ e w d)
]
