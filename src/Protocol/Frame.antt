-- ===== src/Protocol/Frame.antt =====
-- src/protocol/framing.cc, WriteFrame and ReadFrame. A frame's type is the number that travels: the
-- source casts any 16-bit number to its enumeration. Where ReadFrame fails behind the header, it
-- has overwritten the caller's frame; the callers do not look at it then, and the model drops it.
pub mod RoundTrip
pub mod Inversion
use flume_ascend_host_bypass.Prelude.{
  ℕ, ◌+◌, ◌*◌, ◌%◌, ◌^◌, ◌≤◌, Bool, List, [], ◌∷◌, ◌++◌, All, length, drop, replicate, ltb, ◌!=◌,
  ◌==◌, if◌then◌else◌,
}
use flume_ascend_host_bypass.Protocol.Words.{
  IsByte, IsU16, IsU64, append_u16, append_u32, append_u64, load_u16, load_u32, load_u64,
}
use flume_ascend_host_bypass.Protocol.Stream.{
  Sent, Received, Error, body_too_large, invalid_magic, unsupported_version, body_exceeds_maximum,
  Outcome, ok, err, waiting, Sink, write_all, read_all,
}

abbrev pub magic : ℕ
magic = 0x464C554D

abbrev pub version : ℕ
version = 1

abbrev pub max_body_size : ℕ
max_body_size = 128 * 1024 * 1024

abbrev pub header_size : ℕ
header_size = 28

pub record Frame : Type 0 where
  pub type : ℕ
  pub request_id : ℕ
  pub body : List ℕ

-- A frame that fits its fields.
pub record IsFrame (f : Frame) : Type 0 where
  pub type_fits : IsU16 f.type
  pub id_fits : IsU64 f.request_id
  pub body_fits : length f.body ≤ max_body_size

unfoldable pub header : Frame → List ℕ
header f =
    let h = append_u32 [] magic in
    let h = append_u16 h version in
    let h = append_u16 h f.type in
    let h = append_u16 h 0 in
    let h = append_u16 h 0 in
    let h = append_u64 h f.request_id in
    let h = append_u32 h (length f.body % 2 ^ 32) in append_u32 h 0

is_empty : List ℕ → Bool
is_empty [] = Bool.true
is_empty (b ∷ bs) = Bool.false

-- The body follows where the header has been written.
write_body : Frame → Outcome (Unit {0}) × Sink → Outcome (Unit {0}) × Sink
unfolding is_empty
write_body f (ok _, s) = if is_empty f.body then (ok tt, s) else write_all s.answers f.body s.wire
write_body f (err e, s) = (err e, s)
write_body f (waiting, s) = (waiting, s)

unfoldable pub write_frame : Frame → Sink → Outcome (Unit {0}) × Sink
unfolding write_body
write_frame f s =
    if ltb max_body_size (length f.body)
    then (err body_too_large, s)
    else write_body f (write_all s.answers (header f) s.wire)

abbrev pub continue {ℓ κ} :
    {A : Type ℓ} {B : Type κ}
    → Outcome A × List Received
    → (A → List Received → Outcome B × List Received)
    → Outcome B × List Received
continue (ok a, s) f = f a s
continue (err e, s) f = (err e, s)
continue (waiting, s) f = (waiting, s)

-- The fields that the header carries.
unfoldable pub frame_of : List ℕ → List ℕ → Frame
frame_of h body = record {
  type = load_u16 (drop 6 h);
  request_id = load_u64 (drop 12 h);
  body = body;
}

-- The rest of a frame whose first six bytes have been checked. A body of length 0 is not read for.
read_body : List ℕ → List Received → Outcome Frame × List Received
unfolding frame_of
read_body h answers =
    let body_len = load_u32 (drop 20 h) in
    if ltb max_body_size body_len
    then (err body_exceeds_maximum, answers)
    else if body_len == 0
    then (ok (frame_of h []), answers)
    else continue (read_all answers body_len []) (λ body rest. (ok (frame_of h body), rest))

check_header : List ℕ → List Received → Outcome Frame × List Received
unfolding read_body
check_header h answers =
    if load_u32 h != magic
    then (err invalid_magic, answers)
    else if load_u16 (drop 4 h) != version
    then (err unsupported_version, answers)
    else read_body h answers

unfoldable pub read_frame : List Received → Outcome Frame × List Received
unfolding check_header
read_frame answers = continue (read_all answers header_size []) check_header
