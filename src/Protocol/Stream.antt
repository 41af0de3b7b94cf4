-- ===== src/Protocol/Stream.antt =====
-- src/protocol/framing.cc, WriteAll and ReadAll. What the system answers to the successive calls of
-- send and recv is a list: the loops take one answer a round. `waiting` is no return value: the
-- list of answers ended while the call had not returned. Both loops carry what is still to be sent
-- or read, where the source counts up what is done.
pub mod Laws
use flume_ascend_host_bypass.Prelude.{ℕ, zero, suc, ◌-◌, List, [], ◌∷◌, ◌++◌, length, take, drop}

-- What a call answers: the number of bytes taken, or -1 with errno.
pub data Sent : Type 0 where
  took : ℕ → Sent
  interrupted : Sent
  failed : ℕ → Sent

-- The bytes received, none of them at the end of the stream, or -1 with errno.
pub data Received : Type 0 where
  got : List ℕ → Received
  interrupted : Received
  failed : ℕ → Received

-- The messages of framing.cc. A number is the errno of the call that failed.
pub data Error : Type 0 where
  send_failed : ℕ → Error
  send_returned_zero : Error
  recv_failed : ℕ → Error
  peer_closed : Error
  body_too_large : Error
  invalid_magic : Error
  unsupported_version : Error
  body_exceeds_maximum : Error

pub data Outcome {ℓ} (A : Type ℓ) : Type ℓ where
  ok : A → Outcome A
  err : Error → Outcome A
  waiting : Outcome A

-- A socket to write to: the answers that are to come, and the bytes that the system has taken.
pub record Sink : Type 0 where
  pub answers : List Sent
  pub wire : List ℕ

unfoldable pub write_all : List Sent → List ℕ → List ℕ → Outcome (Unit {0}) × Sink
write_all answers [] wire = (ok tt, record { answers = answers; wire = wire })
write_all [] (b ∷ rest) wire = (waiting, record { answers = []; wire = wire })
write_all (Sent.interrupted ∷ next) (b ∷ rest) wire = write_all next (b ∷ rest) wire
write_all (Sent.failed errno ∷ next) (b ∷ rest) wire =
    (err (send_failed errno), record { answers = next; wire = wire })
write_all (took zero ∷ next) (b ∷ rest) wire =
    (err send_returned_zero, record { answers = next; wire = wire })
write_all (took (suc n) ∷ next) (b ∷ rest) wire =
    write_all next (drop n rest) (wire ++ (b ∷ take n rest))

unfoldable pub read_all : List Received → ℕ → List ℕ → Outcome (List ℕ) × List Received
read_all answers zero buffer = (ok buffer, answers)
read_all [] (suc size) buffer = (waiting, [])
read_all (Received.interrupted ∷ next) (suc size) buffer = read_all next (suc size) buffer
read_all (Received.failed errno ∷ next) (suc size) buffer = (err (recv_failed errno), next)
read_all (got [] ∷ next) (suc size) buffer = (err peer_closed, next)
read_all (got (b ∷ bs) ∷ next) (suc size) buffer =
    read_all next (size - length bs) (buffer ++ (b ∷ bs))
