-- ===== src/Roce/Control.antt =====
-- src/roce_storage/control_channel.cc: commands and completions over the TCP control channel. The
-- answers of send and recv are lists, as in Protocol/Stream; `waiting` is no return value: the list
-- ended while the call had not returned.
pub mod Laws
use flume_ascend_host_bypass.Prelude.{
  ℕ, zero, suc, ◌-◌, Option, none, some, List, [], ◌∷◌, ◌++◌, length, take, drop,
}
use flume_ascend_host_bypass.Protocol.Stream.{Sent, took, Received, got}
use flume_ascend_host_bypass.Roce.Command.{
  Command, Completion, encode_command, decode_command, encode_completion, decode_completion,
  command_wire_bytes, completion_wire_bytes,
}

-- The messages. A failed send may have taken 0 bytes.
pub data Error : Type 0 where
  write_failed : Error
  read_failed : ℕ → Error
  closed_mid_frame : Error
  invalid_command : Error
  invalid_command_frame : Error
  invalid_completion : Error
  invalid_completion_frame : Error

pub data Written : Type 0 where
  written : Written
  fails : Error → Written
  waiting : Written

pub data ControlRead {ℓ} (A : Type ℓ) : Type ℓ where
  success : A → ControlRead A
  peer_closed : ControlRead A
  error : Error → ControlRead A
  waiting : ControlRead A

-- The result, the answers that are left, and the bytes that the system has taken.
unfoldable pub control_write_all : List Sent → List ℕ → List ℕ → Written × List Sent × List ℕ
control_write_all answers [] wire = (written, answers, wire)
control_write_all [] (b ∷ rest) wire = (Written.waiting, [], wire)
control_write_all (Sent.interrupted ∷ next) (b ∷ rest) wire = control_write_all next (b ∷ rest) wire
control_write_all (Sent.failed errno ∷ next) (b ∷ rest) wire = (fails write_failed, next, wire)
control_write_all (took zero ∷ next) (b ∷ rest) wire = (fails write_failed, next, wire)
control_write_all (took (suc n) ∷ next) (b ∷ rest) wire =
    control_write_all next (drop n rest) (wire ++ (b ∷ take n rest))

-- The end of the stream is no error where nothing has been received yet.
closed : List ℕ → ControlRead (List ℕ)
closed [] = peer_closed
closed (b ∷ bs) = error closed_mid_frame

unfoldable pub control_read_all : List Received → ℕ → List ℕ → ControlRead (List ℕ) × List Received
unfolding closed
control_read_all answers zero buffer = (success buffer, answers)
control_read_all [] (suc n) buffer = (ControlRead.waiting, [])
control_read_all (Received.interrupted ∷ next) (suc n) buffer = control_read_all next (suc n) buffer
control_read_all (got [] ∷ next) (suc n) buffer = (closed buffer, next)
control_read_all (Received.failed errno ∷ next) (suc n) buffer = (error (read_failed errno), next)
control_read_all (got (b ∷ bs) ∷ next) (suc n) buffer =
    control_read_all next (n - length bs) (buffer ++ (b ∷ bs))

write_wire : Error → List Sent → List ℕ → Option (List ℕ) → Written × List Sent × List ℕ
write_wire e answers wire none = (fails e, answers, wire)
write_wire e answers wire (some bytes) = control_write_all answers bytes wire

unfoldable pub send_command : List Sent → List ℕ → Command → Written × List Sent × List ℕ
unfolding write_wire
send_command answers wire c = write_wire invalid_command answers wire (encode_command c)

unfoldable pub send_completion : List Sent → List ℕ → Completion → Written × List Sent × List ℕ
unfolding write_wire
send_completion answers wire c = write_wire invalid_completion answers wire (encode_completion c)

decoded : {A : Type 0} → Error → Option A → ControlRead A
decoded e none = error e
decoded e (some a) = success a

decode_read :
    {A : Type 0}
    → Error
    → (List ℕ → Option A)
    → ControlRead (List ℕ) × List Received
    → ControlRead A × List Received
unfolding decoded
decode_read e decode (success wire, left) = (decoded e (decode wire), left)
decode_read e decode (peer_closed, left) = (peer_closed, left)
decode_read e decode (error f, left) = (error f, left)
decode_read e decode (ControlRead.waiting, left) = (ControlRead.waiting, left)

unfoldable pub receive_command : List Received → ControlRead Command × List Received
unfolding decode_read
receive_command answers =
    decode_read invalid_command_frame decode_command
      (control_read_all answers command_wire_bytes [])

unfoldable pub receive_completion : List Received → ControlRead Completion × List Received
unfolding decode_read
receive_completion answers =
    decode_read invalid_completion_frame decode_completion
      (control_read_all answers completion_wire_bytes [])
