-- ===== src/Client/Files/Remote.antt =====
-- The client's calls together with the storage agent that answers them.
use flume_ascend_host_bypass.Prelude.{
  ℕ, ◌+◌, ◌-◌, ◌%◌, ◌^◌, ◌≤◌, ◌<◌, ◌≡◌, refl, ap, sym, ◌∙◌, subst, true, some, List, [], ◌++◌,
  length, take, drop, min, arith, All, ltb-false, length-take, append-nil,
}
use mathlib.Core.Option.{some-injective}
use flume_ascend_host_bypass.Protocol.Words.{IsU64, be32, be64, append_u64}
use flume_ascend_host_bypass.Protocol.Checksum.{checksum32, checksum32-lt}
use flume_ascend_host_bypass.Protocol.Reader.{reader, read_raw}
use flume_ascend_host_bypass.Protocol.Reader.Laws.{
  at, read_raw-at, read_u32-at, read_u64-at, read_string-at,
}
use flume_ascend_host_bypass.Protocol.Stream.{Received, Sink, ok}
use flume_ascend_host_bypass.Protocol.Stream.Laws.{Delivers}
use flume_ascend_host_bypass.Protocol.FrameType
use flume_ascend_host_bypass.Protocol.Frame.{Frame, IsFrame, write_frame, header_size}
use flume_ascend_host_bypass.Protocol.Frame.RoundTrip.{read_frame-write_frame}
use flume_ascend_host_bypass.Storage.System.{System, handle}
use flume_ascend_host_bypass.Storage.PosixFile.{OpenedFile, bytes, read}
use flume_ascend_host_bypass.Storage.PosixFile.Range.{IsPread}
use flume_ascend_host_bypass.Agent.{ReadReq, handle_request, max_read_payload_size}
use flume_ascend_host_bypass.Agent.Table.{Agent, find}
use flume_ascend_host_bypass.Agent.Replies.{
  IsReadReq, read_body, read_request, payload_body, handle_request-read,
}
use flume_ascend_host_bypass.Client.Status
use flume_ascend_host_bypass.Client.Memory.{Memory, store}
use flume_ascend_host_bypass.Client.Buffer.{Buffer, is_readable_local_type}
use flume_ascend_host_bypass.Client.Io.{text, make_io}
use flume_ascend_host_bypass.Client.Files.{
  Connection, returned, answer, after_receive, after_send, exchange, ReadResponse, read_response,
  read_payload, read_result, read_answer, after_read, read_req_body, flume_pread_async,
}

abbrev read_ok : List ℕ → ReadResponse
read_ok payload = record {
  status = 0;
  bytes = length payload;
  checksum = checksum32 payload;
  error = [];
}

abbrev fixed_part : List ℕ → List ℕ
fixed_part payload =
    ((([] ++ be32 0) ++ be64 (length payload)) ++ be32 (checksum32 payload)) ++ be32 0 ++ []

-- The fields of a READ_RESP are read back, and the payload is left.
read_response-payload_body :
    (payload : List ℕ)
    → length payload ≤ max_read_payload_size
    → read_response (reader (payload_body payload))
      ≡ (some (read_ok payload), at (fixed_part payload) payload)
unfolding read_response reader
read_response-payload_body payload h =
    let tail = be32 (checksum32 payload) ++ (be32 0 ++ payload) in
    rw (
      read_u32-at [] (be64 (length payload) ++ tail) 0 (omega arith) (omega arith),
      read_u64-at (be32 0) tail (length payload) (omega arith) (omega arith),
      read_u32-at (be32 0 ++ be64 (length payload)) (be32 0 ++ payload) (checksum32 payload)
          (checksum32-lt payload) (omega arith),
      read_string-at ((be32 0 ++ be64 (length payload)) ++ be32 (checksum32 payload)) [] payload
          (omega arith) (omega arith),
    )

-- A good READ_RESP whose payload is not longer than what was asked for is taken as it is.
read_answer-payload_body :
    (len request_id : ℕ) (payload : List ℕ)
    → length payload ≤ len
    → length payload ≤ max_read_payload_size
    → read_answer len (record {
      type = FrameType.read_resp;
      request_id = request_id;
      body = payload_body payload;
    })
      ≡ (make_io Status.ok (length payload) (checksum32 payload) (text []), payload)
unfolding read_answer read_result read_payload read_raw
read_answer-payload_body len request_id payload h k =
    let min_lem : min (length payload) len ≡ length payload = omega arith in
    let cut =
      ap (λ b. read_raw (length payload) (at (fixed_part payload) b)) (sym (append-nil payload))
      ∙ read_raw-at (fixed_part payload) payload []
          (omega (arith, ap length (append-nil payload))) in
    rw (read_response-payload_body payload k, min_lem)
      (ap (read_payload (length payload) (read_ok payload)) cut)

read_req_body_lem :
    (r : ReadReq) (path : List ℕ) (size : ℕ)
    → read_req_body (record { file_id = r.file_id; size = size; path = path }) r.offset r.size
      ≡ read_body r
unfolding read_req_body append_u64
read_req_body_lem r path size = refl

-- A frame that one side has written whole, and that arrives at the other, in any chunks.
pub record Carries (f : Frame) (answers after : List Received) : Type 0 where
  pub from : Sink
  pub to : Sink
  pub head : List ℕ
  pub body : List ℕ
  pub middle : List Received
  pub written : write_frame f from ≡ (ok tt, to)
  pub wire : to.wire ≡ from.wire ++ (head ++ body)
  pub head_arrives : Delivers header_size head answers middle
  pub body_arrives : Delivers (length f.body) body middle after

pub exchange-Carries :
    (type : ℕ) (asked : List ℕ) (c : Connection) (sent : Sink) (f : Frame) {after : List Received}
    → write_frame (record { type = type; request_id = c.next_request_id; body = asked }) c.sink
      ≡ (ok tt, sent)
    → IsFrame f
    → Carries f c.input after
    → exchange type asked c ≡ (
      answer f,
      record { next_request_id = (c.next_request_id + 1) % 2 ^ 64; sink = sent; input = after },
    )
unfolding exchange after_send after_receive
exchange-Carries type asked c sent f {after} w v k = rw (
  w,
  read_frame-write_frame f k.from k.to k.head k.body v k.written k.wire k.head_arrives
      k.body_arrives,
)

-- Where a READ_REQ of the client, with its next id, is written whole, the agent answers it as it
-- answers that frame, and the answer is carried to the client in any chunks, flume_pread_async, on
-- a range inside a buffer of the host or of the simulation, returns FLUME_OK and a request with
-- status FLUME_OK, the number of the bytes that the file's content has in the range, their checksum
-- and an empty text; it stores just these bytes at the buffer's address plus the offset, and leaves
-- the connection behind the answer. The file is open at the agent, dup copies its descriptor, the
-- calls of pread follow its content and the read succeeds; the read is of 64-bit numbers, for at
-- most the maximum payload, and does not pass 2 ^ 64.
pub flume_pread_async-handle_request :
    (sys : System) (a : Agent) (r : ReadReq) (served : OpenedFile) (copy : ℕ) (content : List ℕ)
    (c : Connection) (sent : Sink) (reply : Frame) (path : List ℕ) (size : ℕ) (dst : Buffer)
    (buffer_offset : ℕ) (m : Memory) {out : List ℕ} {after : List Received}
    → IsReadReq r
    → IsU64 c.next_request_id
    → r.size ≤ max_read_payload_size
    → r.offset + r.size < 2 ^ 64
    → find r.file_id a.files ≡ some served
    → sys.dup served.fd ≡ handle copy
    → All (IsPread content) sys.preads
    → read sys r.offset r.size ≡ bytes out
    → buffer_offset + r.size ≤ dst.len
    → is_readable_local_type dst.type ≡ true
    → write_frame (read_request c.next_request_id r) c.sink ≡ (ok tt, sent)
    → (handle_request sys (read_request c.next_request_id r) a).0 ≡ some reply
    → Carries reply c.input after
    → let payload = take r.size (drop r.offset content) in
      flume_pread_async
        (record { file_id = r.file_id; size = size; path = path })
        dst
        r.size
        r.offset
        buffer_offset
        c
        m
      ≡ record {
        result =
            returned Status.ok
              (some (make_io Status.ok (length payload) (checksum32 payload) (text [])));
        connection = record {
          next_request_id = (c.next_request_id + 1) % 2 ^ 64;
          sink = sent;
          input = after;
        };
        memory = store m (dst.ptr + buffer_offset) payload;
      }
unfolding flume_pread_async after_read
flume_pread_async-handle_request sys a r served copy content c sent reply path size dst
      buffer_offset m {out} {after} v id fits range known copied p e space kind w answered arrives =
    let payload = take r.size (drop r.offset content) in
    let short : length payload ≤ r.size =
      omega (arith, length-take r.size (drop r.offset content)) in
    let expected : Frame = record {
      type = FrameType.read_resp;
      request_id = c.next_request_id;
      body = payload_body payload;
    } in
    let same : reply ≡ expected = some-injective _ _ (
      sym answered
      ∙ (handle_request-read sys a c.next_request_id r served copy content v fits range known copied
          p e).0) in
    let fine : IsFrame expected = record {
      type_fits = omega arith;
      id_fits = id;
      body_fits = omega (arith, short, fits);
    } in
    rw (
      ltb-false dst.len buffer_offset (omega (arith, space)),
      ltb-false (dst.len - buffer_offset) r.size (omega (arith, space)),
      kind,
      read_req_body_lem r path size,
      exchange-Carries FrameType.read_req (read_body r) c sent expected w fine
          (subst (λ f. Carries f c.input after) same arrives),
      read_answer-payload_body r.size c.next_request_id payload short (omega (arith, short, fits)),
    )
