-- ===== src/Agent/Shape.antt =====
-- What every reply has in common: its type, its request id, and that it fits a frame.
use flume_ascend_host_bypass.Prelude.{
  ℕ, ◌*◌, ◌≤◌, ◌≡◌, inl, inr, Option, none, some, List, [], ◌++◌, length, arith, ◌==◌,
  if◌then◌else◌, ltb, Option-cases, Bool-cases, All, length-append,
}
use flume_ascend_host_bypass.Prelude.Text.{codes}
use flume_ascend_host_bypass.Protocol.Words.{append_u32, append_u64}
use flume_ascend_host_bypass.Protocol.Frame.{Frame, max_body_size}
use flume_ascend_host_bypass.Protocol.FrameType
use flume_ascend_host_bypass.Storage.System.{System, Descriptor, handle, errno}
use flume_ascend_host_bypass.Storage.PosixFile.{
  OpenedFile, Descriptors, Result, ok, err, Read, bytes, fails, waiting, open_file, read,
}
use flume_ascend_host_bypass.Storage.PosixFile.Bounds.{
  IsBrief, IsBounded, ShortResult, ShortRead, open_file_short, read_short, text_limit,
}
use flume_ascend_host_bypass.Agent.{
  Answer, ReadReq, parse_open, parse_read, parse_close, opened, handle_open, handle_hello,
  read_copy, read_file, handle_read, handle_close, handle_request, read_done, read_status,
  max_read_payload_size, append_string, status_frame, status_ok, err_protocol, err_remote, err_io,
  err_invalid_argument,
}
use flume_ascend_host_bypass.Agent.Table.{Agent, find, close_file}

-- The response type that belongs to a request's.
abbrev pub reply_type : ℕ → ℕ
reply_type type =
    if type == FrameType.hello
    then FrameType.hello_ack
    else if type == FrameType.open_req
    then FrameType.open_resp
    else if type == FrameType.read_req
    then FrameType.read_resp
    else if type == FrameType.close_req
    then FrameType.close_resp
    else FrameType.error

-- An answer of that type and id that WriteFrame accepts; or none yet.
abbrev pub IsReply : ℕ → ℕ → Answer → Type 0
IsReply type request_id (none, a) = Unit {0}
IsReply type request_id (some reply, a) =
    (reply.type ≡ type) × (reply.request_id ≡ request_id) × (length reply.body ≤ max_body_size)

status_frame-IsReply :
    (type request_id status : ℕ) (text : List ℕ) (a : Agent)
    → length text ≤ 2 * text_limit
    → IsReply type request_id (some (status_frame type request_id status text), a)
unfolding status_frame append_string append_u32 append_u64
status_frame-IsReply type request_id status text a h = ground arith

module _ {sys : System} (brief : IsBrief sys) (bounded : All IsBounded sys.preads) where
  opened-IsReply :
      (request_id : ℕ) (a : Agent) (r : Result OpenedFile × Descriptors)
      → ShortResult sys r.0
      → IsReply FrameType.open_resp request_id (opened sys request_id a r)
  unfolding opened append_string append_u32 append_u64
  opened-IsReply request_id a (ok file, d) s = omega arith
  opened-IsReply request_id a (err e, d) s = omega arith

  read_done-IsReply :
      (request_id : ℕ) (a : Agent) (size : ℕ) (r : Read)
      → size ≤ max_read_payload_size
      → ShortRead sys size r
      → IsReply FrameType.read_resp request_id (read_done sys request_id a r)
  unfolding read_done append_string append_u32 append_u64
  read_done-IsReply request_id a size (bytes out) h s = omega arith
  read_done-IsReply request_id a size (fails e) h s = omega arith
  read_done-IsReply request_id a size waiting h s = tt

  copied-IsReply :
      (request_id : ℕ) (req : ReadReq) (a : Agent) (d : Descriptor)
      → req.size ≤ max_read_payload_size
      → IsReply FrameType.read_resp request_id (elim d [
        | errno e ↦
            (some (read_status request_id err_io (codes "dup failed: " ++ sys.strerror e)), a)
        | handle copy ↦ read_copy sys request_id req copy a
      ])
  unfolding read_copy read_status
  copied-IsReply request_id req a (errno e) h =
      status_frame-IsReply FrameType.read_resp request_id err_io
        (codes "dup failed: " ++ sys.strerror e) a
        (omega
          (arith, length-append (codes "dup failed: ") (sys.strerror e), brief.strerror_brief e))
  copied-IsReply request_id req a (handle copy) h =
      read_done-IsReply request_id _ req.size (read sys req.offset req.size) h
        (read_short brief req.offset req.size bounded)

  found-IsReply :
      (request_id : ℕ) (req : ReadReq) (a : Agent) (f : Option OpenedFile)
      → req.size ≤ max_read_payload_size
      → IsReply FrameType.read_resp request_id (elim f [
        | none ↦ (some (read_status request_id err_remote (codes "unknown file id")), a)
        | some file ↦ elim (sys.dup file.fd) [
          | errno e ↦
              (some (read_status request_id err_io (codes "dup failed: " ++ sys.strerror e)), a)
          | handle copy ↦ read_copy sys request_id req copy a
        ]
      ])
  unfolding read_status
  found-IsReply request_id req a none h =
      status_frame-IsReply FrameType.read_resp request_id err_remote (codes "unknown file id") a
        (omega arith)
  found-IsReply request_id req a (some file) h =
      unfold read_status in copied-IsReply request_id req a (sys.dup file.fd) h

  asked-IsReply :
      (request_id : ℕ) (a : Agent) (r : Option ReadReq)
      → IsReply FrameType.read_resp request_id (elim r [
        | none ↦ (some (read_status request_id err_protocol (codes "malformed READ_REQ")), a)
        | some req ↦
            if ltb max_read_payload_size req.size
            then (
              some (
                  read_status request_id err_invalid_argument
                    (codes "READ_REQ length exceeds maximum response payload")),
              a,
            )
            else read_file sys request_id req a
      ])
  unfolding read_status read_file
  asked-IsReply request_id a none =
      status_frame-IsReply FrameType.read_resp request_id err_protocol (codes "malformed READ_REQ")
        a (omega arith)
  asked-IsReply request_id a (some req) = elim (Bool-cases (ltb max_read_payload_size req.size)) [
    | inl big ↦ rw big (
        status_frame-IsReply FrameType.read_resp request_id err_invalid_argument
          (codes "READ_REQ length exceeds maximum response payload") a (omega arith))
    | inr fits ↦ rw fits (found-IsReply request_id req a (find req.file_id a.files) (ground arith))
  ]

  handle_read-IsReply :
      (request : Frame) (a : Agent)
      → IsReply FrameType.read_resp request.request_id (handle_read sys request a)
  unfolding handle_read
  handle_read-IsReply request a = asked-IsReply request.request_id a (parse_read request.body)

  handle_open-IsReply :
      (request : Frame) (a : Agent)
      → IsReply FrameType.open_resp request.request_id (handle_open sys request a)
  unfolding handle_open
  handle_open-IsReply request a = elim (Option-cases (parse_open request.body)) [
    | inl e ↦
        rw (e, handle_open)
          (status_frame-IsReply FrameType.open_resp request.request_id err_protocol
            (codes "malformed OPEN_REQ") a (omega arith))
    | inr (path, e) ↦
        rw (e, handle_open)
          (opened-IsReply request.request_id a (open_file sys a.root path a.descriptors)
            (open_file_short brief a.root path a.descriptors))
  ]

  handle_close-IsReply :
      (request : Frame) (a : Agent)
      → IsReply FrameType.close_resp request.request_id (handle_close request a)
  unfolding handle_close
  handle_close-IsReply request a = elim (Option-cases (parse_close request.body)) [
    | inl e ↦
        rw (e, handle_close)
          (status_frame-IsReply FrameType.close_resp request.request_id err_protocol
            (codes "malformed CLOSE_REQ") a (omega arith))
    | inr (id, e) ↦
        rw (e, handle_close)
          (status_frame-IsReply FrameType.close_resp request.request_id status_ok []
            (close_file id a) (omega arith))
  ]

  -- Where the texts of the system are at most a mebibyte long and pread answers with at most what
  -- it was asked for, every reply to a request has the response type that belongs to the request's,
  -- the request's id, and a body that WriteFrame accepts.
  pub handle_request-IsReply :
      (request : Frame) (a : Agent)
      → IsReply (reply_type request.type) request.request_id (handle_request sys request a)
  unfolding handle_request handle_hello append_string append_u32
  handle_request-IsReply request a = elim (Bool-cases (request.type == FrameType.hello)) [
    | inl e ↦ rw e (omega arith)
    | inr n ↦ rw n (elim (Bool-cases (request.type == FrameType.open_req)) [
      | inl e ↦ rw e (handle_open-IsReply request a)
      | inr n ↦ rw n (elim (Bool-cases (request.type == FrameType.read_req)) [
        | inl e ↦ rw e (handle_read-IsReply request a)
        | inr n ↦ rw n (elim (Bool-cases (request.type == FrameType.close_req)) [
          | inl e ↦ rw e (handle_close-IsReply request a)
          | inr n ↦ rw n (
              status_frame-IsReply FrameType.error request.request_id err_protocol
                (codes "unknown frame type") a (omega arith))
        ])
      ])
    ])
  ]
