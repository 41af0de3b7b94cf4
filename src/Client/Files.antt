-- ===== src/Client/Files.antt =====
-- src/core/client.cc: files of the storage agent. A call writes one frame and reads one. The
-- connection has the fields of flume_client that these calls touch; `waiting` is no return value: a
-- call of the system has not returned.
pub mod Remote
use flume_ascend_host_bypass.Prelude.{
  ℕ, ◌+◌, ◌-◌, ◌%◌, ◌^◌, Bool, not, ◌||◌, Option, none, some, List, [], ◌++◌, length, min, ltb,
  ◌==◌, ◌!=◌, if◌then◌else◌,
}
use flume_ascend_host_bypass.Protocol.Words.{append_u64}
use flume_ascend_host_bypass.Protocol.Reader.{
  Reader, M, continue, ◌>>=◌, return, reader, read_raw, read_u32, read_u64, read_string,
}
use flume_ascend_host_bypass.Protocol.Stream.{Received, Sink, Outcome, Error}
use flume_ascend_host_bypass.Protocol.Frame.{Frame, write_frame, read_frame}
use flume_ascend_host_bypass.Protocol.FrameType
use flume_ascend_host_bypass.Agent.{append_string}
use flume_ascend_host_bypass.Client.Status
use flume_ascend_host_bypass.Client.Memory.{Memory, load, store}
use flume_ascend_host_bypass.Client.Buffer.{Buffer, is_readable_local_type}
use flume_ascend_host_bypass.Client.Io.{
  Detail, silent, text, framing, invalid_read_resp, malformed_read_resp, payload_length_mismatch,
  Io, make_io,
}

pub record Connection : Type 0 where
  pub next_request_id : ℕ
  pub sink : Sink
  pub input : List Received

pub data Exchange : Type 0 where
  unsent : Error → Exchange
  unread : Error → Exchange
  answer : Frame → Exchange
  waiting : Exchange

after_receive : Connection → Outcome Frame × List Received → Exchange × Connection
after_receive c (Outcome.ok f, input) = (answer f, record c { input = input })
after_receive c (Outcome.err e, input) = (unread e, record c { input = input })
after_receive c (Outcome.waiting, input) = (Exchange.waiting, record c { input = input })

after_send : Connection → Outcome (Unit {0}) × Sink → Exchange × Connection
unfolding after_receive
after_send c (Outcome.ok _, sink) = after_receive (record c { sink = sink }) (read_frame c.input)
after_send c (Outcome.err e, sink) = (unsent e, record c { sink = sink })
after_send c (Outcome.waiting, sink) = (Exchange.waiting, record c { sink = sink })

-- A request with the next id: WriteFrame, and ReadFrame where it succeeds.
unfoldable pub exchange : ℕ → List ℕ → Connection → Exchange × Connection
unfolding after_send
exchange type body c =
    after_send (record c { next_request_id = (c.next_request_id + 1) % 2 ^ 64 })
      (write_frame (record { type = type; request_id = c.next_request_id; body = body }) c.sink)

pub record File : Type 0 where
  pub file_id : ℕ
  pub size : ℕ
  pub path : List ℕ

-- What a call returns: a status, and a value where it sets its output.
pub data Returned (A : Type 0) : Type 0 where
  returned : ℕ → Option A → Returned A
  waiting : Returned A

pub record OpenResponse : Type 0 where
  pub status : ℕ
  pub file_id : ℕ
  pub size : ℕ
  pub error : List ℕ

open_response : M OpenResponse
open_response = do
  status ← read_u32
  file_id ← read_u64
  size ← read_u64
  error ← read_string
  return (record { status = status; file_id = file_id; size = size; error = error })

opened_file : List ℕ → Option OpenResponse × Reader → Returned File
opened_file path (none, r) = returned Status.protocol none
opened_file path (some o, r) =
    if o.status != Status.ok
    then returned o.status none
    else returned Status.ok (some (record { file_id = o.file_id; size = o.size; path = path }))

after_open : List ℕ → Exchange × Connection → Returned File × Connection
unfolding open_response opened_file
after_open path (unsent e, c) = (returned Status.io_error none, c)
after_open path (unread e, c) = (returned Status.protocol none, c)
after_open path (answer f, c) = (
  if f.type != FrameType.open_resp
      then returned Status.protocol none
      else opened_file path (open_response (reader f.body)),
  c,
)
after_open path (Exchange.waiting, c) = (Returned.waiting, c)

unfoldable pub flume_open : List ℕ → Connection → Returned File × Connection
unfolding after_open
flume_open path c = after_open path (exchange FrameType.open_req (append_string [] path) c)

-- The answer is read and not looked at.
after_close : Exchange × Connection → Returned (Unit {0}) × Connection
after_close (Exchange.waiting, c) = (Returned.waiting, c)
after_close (unsent e, c) = (returned Status.ok none, c)
after_close (unread e, c) = (returned Status.ok none, c)
after_close (answer f, c) = (returned Status.ok none, c)

-- WriteFrame may fail here, and the answer is read all the same.
after_send_close : Connection → Outcome (Unit {0}) × Sink → Returned (Unit {0}) × Connection
unfolding after_close after_receive
after_send_close c (Outcome.waiting, sink) = (Returned.waiting, record c { sink = sink })
after_send_close c (Outcome.ok _, sink) =
    after_close (after_receive (record c { sink = sink }) (read_frame c.input))
after_send_close c (Outcome.err _, sink) =
    after_close (after_receive (record c { sink = sink }) (read_frame c.input))

unfoldable pub flume_close : File → Connection → Returned (Unit {0}) × Connection
unfolding after_send_close
flume_close file c =
    after_send_close (record c { next_request_id = (c.next_request_id + 1) % 2 ^ 64 })
      (write_frame
        (record {
          type = FrameType.close_req;
          request_id = c.next_request_id;
          body = append_u64 [] file.file_id;
        })
        c.sink)

pub record ReadResponse : Type 0 where
  pub status : ℕ
  pub bytes : ℕ
  pub checksum : ℕ
  pub error : List ℕ

read_response : M ReadResponse
read_response = do
  status ← read_u32
  bytes ← read_u64
  checksum ← read_u32
  error ← read_string
  return (record { status = status; bytes = bytes; checksum = checksum; error = error })

-- The request's result, and the bytes that are copied into the buffer.
read_payload : ℕ → ReadResponse → Option (List ℕ) × Reader → Io × List ℕ
read_payload bytes h (none, r) =
    (make_io Status.protocol bytes h.checksum payload_length_mismatch, [])
read_payload bytes h (some payload, r) = (make_io h.status bytes h.checksum (text h.error), payload)

read_result : ℕ → Option ReadResponse × Reader → Io × List ℕ
unfolding read_payload
read_result len (none, r) = (make_io Status.protocol 0 0 malformed_read_resp, [])
read_result len (some h, r) =
    let bytes = min h.bytes len in
    if h.status == Status.ok
    then read_payload bytes h (read_raw bytes r)
    else (make_io h.status bytes h.checksum (text h.error), [])

read_answer : ℕ → Frame → Io × List ℕ
unfolding read_response read_result
read_answer len f =
    if f.type != FrameType.read_resp
    then (make_io Status.protocol 0 0 invalid_read_resp, [])
    else read_result len (read_response (reader f.body))

pub record Reading : Type 0 where
  pub result : Returned Io
  pub connection : Connection
  pub memory : Memory

after_read : ℕ → ℕ → Memory → Exchange × Connection → Reading
unfolding read_answer
after_read ptr len m (unsent e, c) = record {
  result = returned Status.ok (some (make_io Status.io_error 0 0 (framing e)));
  connection = c;
  memory = m;
}
after_read ptr len m (unread e, c) = record {
  result = returned Status.ok (some (make_io Status.protocol 0 0 (framing e)));
  connection = c;
  memory = m;
}
after_read ptr len m (answer f, c) = record {
  result = returned Status.ok (some (read_answer len f).0);
  connection = c;
  memory = store m ptr (read_answer len f).1;
}
after_read ptr len m (Exchange.waiting, c) = record {
  result = Returned.waiting;
  connection = c;
  memory = m;
}

unfoldable pub read_req_body : File → ℕ → ℕ → List ℕ
read_req_body file file_offset len =
    append_u64 (append_u64 (append_u64 [] file.file_id) file_offset) len

unfoldable pub flume_pread_async : File → Buffer → ℕ → ℕ → ℕ → Connection → Memory → Reading
unfolding after_read read_req_body
flume_pread_async file dst len file_offset buffer_offset c m =
    if ltb dst.len buffer_offset || ltb (dst.len - buffer_offset) len
    then record { result = returned Status.invalid_argument none; connection = c; memory = m }
    else if not (is_readable_local_type dst.type)
    then record { result = returned Status.unsupported none; connection = c; memory = m }
    else after_read (dst.ptr + buffer_offset) len m
        (exchange FrameType.read_req (read_req_body file file_offset len) c)
