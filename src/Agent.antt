-- ===== src/Agent.antt =====
-- src/agent/storage_agent.cc: the requests of HandleClient, and SendStatus. A request is answered by one frame; the
-- shared table of open files and the descriptors of the process are the state. The calls of the
-- system during one request are a `System`. The requests of several clients are answered one after
-- the other: each holds the table's lock while it uses the table.
pub mod Table
pub mod Invariant
pub mod Ids
pub mod Replies
pub mod Shape
pub mod Loop
pub mod Account
pub mod Session
mod Tests
pub mod Samples
use flume_ascend_host_bypass.Prelude.{
  ℕ, ◌+◌, ◌-◌, ◌%◌, ◌^◌, Bool, true, false, ◌&&◌, not, Option, none, some, List, [], ◌∷◌, ◌++◌,
  length, ltb, ◌==◌, if◌then◌else◌,
}
use flume_ascend_host_bypass.Prelude.Text.{codes}
use flume_ascend_host_bypass.Protocol.Words.{append_u32, append_u64}
use flume_ascend_host_bypass.Protocol.Reader.{
  Reader, M, continue, ◌>>=◌, return, reader, read_u64, read_string, done,
}
use flume_ascend_host_bypass.Protocol.Frame.{Frame, max_body_size, read_frame, write_frame}
use flume_ascend_host_bypass.Protocol.Stream.{Received, Sink, Outcome}
use flume_ascend_host_bypass.Protocol.FrameType
use flume_ascend_host_bypass.Protocol.Checksum.{checksum32}
use flume_ascend_host_bypass.Storage.System.{System, handle, errno}
use Table.{Files, Agent, find, emplace, close_file}
use flume_ascend_host_bypass.Storage.PosixFile.{
  OpenedFile, Descriptors, obtain, close, Result, ok, err, Read, bytes, fails, waiting, message,
  open_file, read,
}

-- include/flume/flume.h: the status codes that the agent uses.
abbrev pub status_ok : ℕ
status_ok = 0

abbrev pub err_invalid_argument : ℕ
err_invalid_argument = 1

abbrev pub err_io : ℕ
err_io = 2

abbrev pub err_remote : ℕ
err_remote = 6

abbrev pub err_protocol : ℕ
err_protocol = 7

abbrev pub read_resp_fixed_bytes : ℕ
read_resp_fixed_bytes = 4 + 8 + 4 + 4

abbrev pub max_read_payload_size : ℕ
max_read_payload_size = max_body_size - read_resp_fixed_bytes

unfoldable pub append_string : List ℕ → List ℕ → List ℕ
append_string out value = append_u32 out (length value % 2 ^ 32) ++ value

-- SendStatus, up to the call of WriteFrame.
unfoldable pub status_frame : ℕ → ℕ → ℕ → List ℕ → Frame
unfolding append_string
status_frame type request_id status text =
    let body = append_u32 [] (status % 2 ^ 32) in
    let body =
      if type == FrameType.open_resp
      then append_u64 (append_u64 body 0) 0
      else if type == FrameType.read_resp
      then append_u32 (append_u64 body 0) 0
      else body in
    record { type = type; request_id = request_id; body = append_string body text }

-- What a request's body holds, if it holds nothing else.
complete : {A : Type 0} → Option A × Reader → Option A
complete (none, r) = none
complete (some a, r) = if done r then some a else none

unfoldable pub parse_open : List ℕ → Option (List ℕ)
unfolding complete
parse_open body = complete (read_string (reader body))

pub record ReadReq : Type 0 where
  pub file_id : ℕ
  pub offset : ℕ
  pub size : ℕ

read_req : M ReadReq
read_req = do
  file_id ← read_u64
  offset ← read_u64
  size ← read_u64
  return (record { file_id = file_id; offset = offset; size = size })

unfoldable pub parse_read : List ℕ → Option ReadReq
unfolding complete read_req
parse_read body = complete (read_req (reader body))

unfoldable pub parse_close : List ℕ → Option ℕ
unfolding complete
parse_close body = complete (read_u64 (reader body))

-- The reply to a request, and the agent after it. No reply: a call of the system has not returned.
abbrev pub Answer : Type 0
Answer = Option Frame × Agent

open_reply : ℕ → List ℕ → Frame
open_reply request_id body = record {
  type = FrameType.open_resp;
  request_id = request_id;
  body = body;
}

pub opened : System → ℕ → Agent → Result OpenedFile × Descriptors → Answer
unfolding open_reply append_string emplace
opened sys request_id agent (ok file, d) =
    let file_id = agent.next_file_id in
    let body = append_u64 (append_u32 [] status_ok) file_id in
    (
      some (open_reply request_id (append_string (append_u64 body file.size) [])),
      record agent {
        next_file_id = (file_id + 1) % 2 ^ 64;
        files = emplace file_id file agent.files;
        descriptors = d;
      },
    )
opened sys request_id agent (err e, d) =
    let body = append_u64 (append_u64 (append_u32 [] err_remote) 0) 0 in
    (
      some (open_reply request_id (append_string body (message sys e))),
      record agent { descriptors = d },
    )

handle_open : System → Frame → Agent → Answer
unfolding parse_open opened status_frame
handle_open sys request agent = elim (parse_open request.body) [
  | none ↦ (
    some (
        status_frame FrameType.open_resp request.request_id err_protocol
          (codes "malformed OPEN_REQ")),
    agent,
  )
  | some path ↦
      opened sys request.request_id agent (open_file sys agent.root path agent.descriptors)
]

read_reply : ℕ → List ℕ → Frame
read_reply request_id body = record {
  type = FrameType.read_resp;
  request_id = request_id;
  body = body;
}

-- The reply, when the copy of the descriptor has been closed again.
read_done : System → ℕ → Agent → Read → Answer
unfolding read_reply append_string
read_done sys request_id agent (bytes payload) =
    let body = append_u64 (append_u32 [] status_ok) (length payload) in
    let body = append_u32 body (checksum32 payload) in
    (some (read_reply request_id (append_string body [] ++ payload)), agent)
read_done sys request_id agent (fails e) =
    let body = append_u32 (append_u64 (append_u32 [] err_remote) 0) 0 in
    (some (read_reply request_id (append_string body (message sys e))), agent)
read_done sys request_id agent waiting = (none, agent)

-- A call that waits leaves the copy open: it is closed behind the call.
close_copy : ℕ → Read → Agent → Agent
close_copy copy (bytes payload) agent = record agent { descriptors = close copy agent.descriptors }
close_copy copy (fails e) agent = record agent { descriptors = close copy agent.descriptors }
close_copy copy waiting agent = agent

read_copy : System → ℕ → ReadReq → ℕ → Agent → Answer
unfolding read_done close_copy
read_copy sys request_id req copy agent =
    let result = read sys req.offset req.size in
    read_done sys request_id
      (close_copy copy result (record agent { descriptors = obtain copy agent.descriptors })) result

read_status : ℕ → ℕ → List ℕ → Frame
unfolding status_frame
read_status request_id status text = status_frame FrameType.read_resp request_id status text

read_file : System → ℕ → ReadReq → Agent → Answer
unfolding read_copy read_status find
read_file sys request_id req agent = elim (find req.file_id agent.files) [
  | none ↦ (some (read_status request_id err_remote (codes "unknown file id")), agent)
  | some file ↦ elim (sys.dup file.fd) [
    | errno e ↦
        (some (read_status request_id err_io (codes "dup failed: " ++ sys.strerror e)), agent)
    | handle copy ↦ read_copy sys request_id req copy agent
  ]
]

handle_read : System → Frame → Agent → Answer
unfolding parse_read read_file
handle_read sys request agent = elim (parse_read request.body) [
  | none ↦ (some (read_status request.request_id err_protocol (codes "malformed READ_REQ")), agent)
  | some req ↦
      if ltb max_read_payload_size req.size
      then (
        some (
            read_status request.request_id err_invalid_argument
              (codes "READ_REQ length exceeds maximum response payload")),
        agent,
      )
      else read_file sys request.request_id req agent
]

handle_close : Frame → Agent → Answer
unfolding parse_close close_file status_frame
handle_close request agent = elim (parse_close request.body) [
  | none ↦ (
    some (
        status_frame FrameType.close_resp request.request_id err_protocol
          (codes "malformed CLOSE_REQ")),
    agent,
  )
  | some id ↦ (
    some (status_frame FrameType.close_resp request.request_id status_ok []),
    close_file id agent,
  )
]

handle_hello : Frame → Agent → Answer
unfolding append_string
handle_hello request agent = (
  some (record {
    type = FrameType.hello_ack;
    request_id = request.request_id;
    body = append_string (append_u32 [] status_ok) (codes "mock,hccl-hcomm-planned");
  }),
  agent,
)

-- One round of HandleClient's loop, between ReadFrame and WriteFrame.
unfoldable pub handle_request : System → Frame → Agent → Answer
unfolding handle_hello handle_open handle_read handle_close status_frame
handle_request sys request agent =
    if request.type == FrameType.hello
    then handle_hello request agent
    else if request.type == FrameType.open_req
    then handle_open sys request agent
    else if request.type == FrameType.read_req
    then handle_read sys request agent
    else if request.type == FrameType.close_req
    then handle_close request agent
    else (
      some (
          status_frame FrameType.error request.request_id err_protocol
            (codes "unknown frame type")),
      agent,
    )
