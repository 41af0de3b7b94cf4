-- ===== src/Agent/Ids.antt =====
-- How many file ids a request uses up.
use flume_ascend_host_bypass.Prelude.{
  ℕ, ◌+◌, ◌≤◌, ◌≡◌, refl, inl, inr, some, ◌++◌, arith, Option-cases,
}
use flume_ascend_host_bypass.Protocol.Frame.{Frame}
use flume_ascend_host_bypass.Storage.System.{System, Descriptor, handle, errno}
use flume_ascend_host_bypass.Storage.PosixFile.{
  OpenedFile, Descriptors, obtain, Result, ok, err, Read, bytes, fails, waiting, open_file, read,
}
use flume_ascend_host_bypass.Prelude.Text.{codes}
use flume_ascend_host_bypass.Prelude.{Bool-cases, ltb}
use flume_ascend_host_bypass.Agent.{
  ReadReq, parse_open, parse_read, parse_close, read_status, err_io, max_read_payload_size, Answer,
  opened, handle_open, read_copy, read_file, handle_read, handle_close, handle_request,
  handle_hello, close_copy, read_done,
}
use flume_ascend_host_bypass.Agent.Table.{Agent, find, close_file}

open_next :
    (sys : System) (request_id : ℕ) (a : Agent) (r : Result OpenedFile × Descriptors)
    → (opened sys request_id a r).1.next_file_id ≤ a.next_file_id + 1
unfolding opened
open_next sys request_id a (ok file, d) = omega arith
open_next sys request_id a (err e, d) = omega arith

handle_open_next :
    (sys : System) (request : Frame) (a : Agent)
    → (handle_open sys request a).1.next_file_id ≤ a.next_file_id + 1
unfolding handle_open
handle_open_next sys request a = elim (Option-cases (parse_open request.body)) [
  | inl e ↦ rw (e, handle_open) (omega arith)
  | inr (path, e) ↦
      rw (e, handle_open)
        (open_next sys request.request_id a (open_file sys a.root path a.descriptors))
]

read_next :
    (sys : System) (request_id copy : ℕ) (a : Agent) (r : Read)
    → (read_done sys request_id (close_copy copy r a) r).1.next_file_id ≡ a.next_file_id
unfolding read_done close_copy
read_next sys request_id copy a (bytes payload) = refl
read_next sys request_id copy a (fails e) = refl
read_next sys request_id copy a waiting = refl

read_file_next :
    (sys : System) (request_id : ℕ) (req : ReadReq) (a : Agent)
    → (read_file sys request_id req a).1.next_file_id ≡ a.next_file_id
unfolding read_file read_copy
read_file_next sys request_id req a = elim (Option-cases (find req.file_id a.files)) [
  | inl e ↦ rw (e, read_file)
  | inr (file, e) ↦ rw (e, read_file) (copied (sys.dup file.fd))
]
  where
    copied :
        (d : Descriptor)
        → (elim d as (λ x. Answer) [
          | errno e ↦
              (some (read_status request_id err_io (codes "dup failed: " ++ sys.strerror e)), a)
          | handle copy ↦ read_copy sys request_id req copy a
        ]).1.next_file_id
          ≡ a.next_file_id
    copied (errno e) = refl
    copied (handle copy) =
        read_next sys request_id copy (record a { descriptors = obtain copy a.descriptors })
          (read sys req.offset req.size)

handle_read_next :
    (sys : System) (request : Frame) (a : Agent)
    → (handle_read sys request a).1.next_file_id ≡ a.next_file_id
unfolding handle_read
handle_read_next sys request a = elim (Option-cases (parse_read request.body)) [
  | inl e ↦ rw (e, handle_read)
  | inr (req, e) ↦ elim (Bool-cases (ltb max_read_payload_size req.size)) [
    | inl big ↦ rw (e, big, handle_read)
    | inr fits ↦ rw (e, fits, handle_read) (read_file_next sys request.request_id req a)
  ]
]

close_next :
    (request : Frame) (a : Agent) → (handle_close request a).1.next_file_id ≡ a.next_file_id
unfolding handle_close close_file
close_next request a = elim (Option-cases (parse_close request.body)) [
  | inl e ↦ rw (e, handle_close)
  | inr (id, e) ↦ elim (Option-cases (find id a.files)) [
    | inl f ↦ rw (e, f, handle_close, close_file)
    | inr (file, f) ↦ rw (e, f, handle_close, close_file)
  ]
]

-- A request uses up one id at most.
pub handle_request_next :
    (sys : System) (request : Frame) (a : Agent)
    → (handle_request sys request a).1.next_file_id ≤ a.next_file_id + 1
unfolding handle_request handle_hello
handle_request_next sys request a =
    ground
      (arith, handle_open_next sys request a, handle_read_next sys request a, close_next request a)
