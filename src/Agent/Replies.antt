-- ===== src/Agent/Replies.antt =====
-- What the agent replies, on the wire's own terms.
use flume_ascend_host_bypass.Prelude.{
  ℕ, ◌+◌, ◌^◌, ◌≤◌, ◌<◌, ◌≡◌, refl, ap, sym, ◌∙◌, some, List, [], ◌++◌, length, take, drop, arith,
  All, append-nil, ltb-false,
}
use flume_ascend_host_bypass.Protocol.Words.{
  IsU32, IsU64, be32, be64, load_u64-be64, append_u32, append_u64,
}
use flume_ascend_host_bypass.Protocol.Reader.{reader, read_raw, read_u64, read_string, done}
use flume_ascend_host_bypass.Protocol.Reader.Laws.{read_string-at, done-at}
use flume_ascend_host_bypass.Protocol.Frame.{Frame}
use flume_ascend_host_bypass.Protocol.FrameType
use flume_ascend_host_bypass.Protocol.Checksum.{checksum32}
use flume_ascend_host_bypass.Storage.System.{System, handle}
use flume_ascend_host_bypass.Storage.PosixFile.{OpenedFile, bytes, read}
use flume_ascend_host_bypass.Storage.PosixFile.Range.{IsPread, read-range}
use flume_ascend_host_bypass.Agent.{
  ReadReq, parse_open, parse_read, parse_close, complete, read_copy, read_file, handle_read,
  handle_request, close_copy, read_done, max_read_payload_size, read_reply, append_string,
  status_ok,
}
use flume_ascend_host_bypass.Agent.Table.{Agent, find}

-- The body of a READ_REQ and how it is taken apart.
abbrev pub read_body : ReadReq → List ℕ
read_body r = be64 r.file_id ++ (be64 r.offset ++ be64 r.size)

pub record IsReadReq (r : ReadReq) : Type 0 where
  pub id_fits : IsU64 r.file_id
  pub offset_fits : IsU64 r.offset
  pub size_fits : IsU64 r.size

parse_read-read_body : (r : ReadReq) → IsReadReq r → parse_read (read_body r) ≡ some r
unfolding parse_read reader read_u64 read_raw done
parse_read-read_body r h =
    ground (arith, load_u64-be64 r.file_id [], load_u64-be64 r.offset [], load_u64-be64 r.size [])

parse_close-be64 : (id : ℕ) → IsU64 id → parse_close (be64 id) ≡ some id
unfolding parse_close reader read_u64 read_raw done
parse_close-be64 id h = ground (arith, load_u64-be64 id [])

parse_open-path :
    (path : List ℕ) → IsU32 (length path) → parse_open (be32 (length path) ++ path) ≡ some path
unfolding parse_open reader
parse_open-path path h =
    ap (λ b. complete (read_string (reader (be32 (length path) ++ b)))) (sym (append-nil path))
    ∙ ap complete (read_string-at [] path [] h (omega (arith, ap length (append-nil path))))
    ∙ rw (done-at (be32 (length path) ++ path))

-- The body of a successful READ_RESP.
abbrev pub payload_body : List ℕ → List ℕ
payload_body payload =
    be32 status_ok ++ (be64 (length payload) ++ (be32 (checksum32 payload) ++ (be32 0 ++ payload)))

abbrev pub read_request : ℕ → ReadReq → Frame
read_request request_id r = record {
  type = FrameType.read_req;
  request_id = request_id;
  body = read_body r;
}

read_done_bytes :
    (sys : System) (request_id : ℕ) (a : Agent) (payload : List ℕ)
    → (read_done sys request_id a (bytes payload)).0
      ≡ some (read_reply request_id (payload_body payload))
unfolding read_done append_string append_u32 append_u64
read_done_bytes sys request_id a payload = refl

-- A READ_REQ with 64-bit fields, for at most the maximum payload, in a range that does not pass 2 ^
-- 64, of a file that is open and whose descriptor dup copies, is answered, where the calls of pread
-- follow a file's content and the read succeeds, with exactly the bytes of that content in the
-- range, up to its end, behind their number, their checksum and an empty message; the table of open
-- files stays as it is.
pub handle_request-read :
    (sys : System) (a : Agent) (request_id : ℕ) (r : ReadReq) (file : OpenedFile) (copy : ℕ)
    (content : List ℕ) {out : List ℕ}
    → IsReadReq r
    → r.size ≤ max_read_payload_size
    → r.offset + r.size < 2 ^ 64
    → find r.file_id a.files ≡ some file
    → sys.dup file.fd ≡ handle copy
    → All (IsPread content) sys.preads
    → read sys r.offset r.size ≡ bytes out
    → ((handle_request sys (read_request request_id r) a).0
        ≡ some (record {
          type = FrameType.read_resp;
          request_id = request_id;
          body = payload_body (take r.size (drop r.offset content));
        }))
      × ((handle_request sys (read_request request_id r) a).1.files ≡ a.files)
unfolding handle_request handle_read read_file read_copy close_copy read_reply
handle_request-read sys a request_id r file copy content {out} v fits range known copied p e =
    rw
      (
        parse_read-read_body r v,
        handle_read,
        ltb-false max_read_payload_size r.size fits,
        known,
        read_file,
        copied,
        e,
      )
      (
        read_done_bytes sys request_id a out
            ∙ ap (λ o. some (read_reply request_id (payload_body o)))
                (read-range sys content r.offset r.size p range e),
        refl,
      )
