-- ===== src/Roce/Control/Laws.antt =====
-- What one side sends, the other receives.
use flume_ascend_host_bypass.Prelude.{
  ℕ, zero, suc, ◌≡◌, refl, ap, sym, ◌∙◌, subst, true, false, ◌==◌, some, List, [], ◌∷◌, ◌++◌, take,
  drop, arith, append-nil, append_assoc, take-append-drop,
}
use mathlib.Core.Option.{some-injective}
use flume_ascend_host_bypass.Protocol.Stream.{Sent, took, Received}
use flume_ascend_host_bypass.Protocol.Stream.Laws.{Delivers}
use flume_ascend_host_bypass.Roce.Command.{
  Command, Completion, IsCommand, IsCompletion, is_sendable, encode_command, decode_command,
  encode_completion, decode_completion, command_wire_bytes, completion_wire_bytes,
}
use flume_ascend_host_bypass.Roce.Command.RoundTrip.{
  decode_command-encode_command, decode_completion-encode_completion, travelled,
}
use flume_ascend_host_bypass.Roce.Control.{
  written, success, invalid_command, invalid_completion, control_write_all, control_read_all,
  send_command, send_completion, receive_command, receive_completion, write_wire, decode_read,
  decoded,
}

control_read_all-Delivers :
    {n : ℕ} {bytes : List ℕ} {answers after : List Received} (buffer : List ℕ)
    → Delivers n bytes answers after
    → control_read_all answers n buffer ≡ (success (buffer ++ bytes), after)
unfolding control_read_all
control_read_all-Delivers buffer (Delivers.none_left {answers = answers}) =
    ap (λ b. (success b, answers)) (sym (append-nil buffer))
control_read_all-Delivers buffer (Delivers.again d) = control_read_all-Delivers buffer d
control_read_all-Delivers buffer
      (Delivers.chunk {bytes = bytes} {answers = answers} {after = after} b bs e d) =
    ap (λ k. control_read_all answers k (buffer ++ (b ∷ bs))) (omega arith)
    ∙ control_read_all-Delivers (buffer ++ (b ∷ bs)) d
    ∙ ap (λ l. (success l, after)) (append_assoc buffer (b ∷ bs) bytes)

control_write_all_ok :
    (answers : List Sent) (bytes wire : List ℕ)
    → (control_write_all answers bytes wire).0 ≡ written
    → (control_write_all answers bytes wire).2 ≡ wire ++ bytes
unfolding control_write_all
control_write_all_ok answers [] wire h = sym (append-nil wire)
control_write_all_ok [] (b ∷ rest) wire h = cc
control_write_all_ok (Sent.interrupted ∷ next) (b ∷ rest) wire h =
    control_write_all_ok next (b ∷ rest) wire h
control_write_all_ok (Sent.failed errno ∷ next) (b ∷ rest) wire h = cc
control_write_all_ok (took zero ∷ next) (b ∷ rest) wire h = cc
control_write_all_ok (took (suc n) ∷ next) (b ∷ rest) wire h =
    control_write_all_ok next (drop n rest) (wire ++ (b ∷ take n rest)) h
    ∙ append_assoc wire (b ∷ take n rest) (drop n rest)
    ∙ ap (λ l. wire ++ (b ∷ l)) (take-append-drop n rest)

-- A command whose fields fit their types and which the encoder's test lets through, and that
-- SendCommand has written, is on the wire as its encoding, and ReceiveCommand returns the same
-- command when recv delivers that encoding, in any chunks and with any interruptions.
pub receive_command-send_command :
    (c : Command) (answers : List Sent) (wire : List ℕ) {w : List ℕ}
    {incoming after : List Received}
    → IsCommand c
    → is_sendable c ≡ true
    → encode_command c ≡ some w
    → (send_command answers wire c).0 ≡ written
    → Delivers command_wire_bytes w incoming after
    → ((send_command answers wire c).2 ≡ wire ++ w)
      × (receive_command incoming ≡ (success c, after))
unfolding send_command write_wire receive_command decode_read decoded
receive_command-send_command c answers wire {w} v s e h r =
    let (w', e', d) = decode_command-encode_command c v s in
    let d' : decode_command w ≡ some c = ap decode_command (some-injective _ _ (sym e ∙ e')) ∙ d in
    (
      rw e (
          control_write_all_ok answers w wire
            (subst (λ o. (write_wire invalid_command answers wire o).0 ≡ written) e h)),
      rw (control_read_all-Delivers [] r, d') refl,
    )

-- A completion whose fields fit their types and whose request id is not 0, and that SendCompletion
-- has written, is on the wire as its encoding, and ReceiveCompletion returns it, with its status
-- modulo 2 ^ 16, when recv delivers that encoding, in any chunks and with any interruptions.
receive_completion-send_completion :
    (c : Completion) (answers : List Sent) (wire : List ℕ) {w : List ℕ}
    {incoming after : List Received}
    → IsCompletion c
    → (c.request_id == 0) ≡ false
    → encode_completion c ≡ some w
    → (send_completion answers wire c).0 ≡ written
    → Delivers completion_wire_bytes w incoming after
    → ((send_completion answers wire c).2 ≡ wire ++ w)
      × (receive_completion incoming ≡ (success (travelled c), after))
unfolding send_completion write_wire receive_completion decode_read decoded
receive_completion-send_completion c answers wire {w} v s e h r =
    let (w', e', d) = decode_completion-encode_completion c v s in
    let d' : decode_completion w ≡ some (travelled c) =
      ap decode_completion (some-injective _ _ (sym e ∙ e')) ∙ d in
    (
      rw e (
          control_write_all_ok answers w wire
            (subst (λ o. (write_wire invalid_completion answers wire o).0 ≡ written) e h)),
      rw (control_read_all-Delivers [] r, d') refl,
    )
