-- ===== src/Client/Tests.antt =====
-- The client's reads, applied to the sample agent, and the properties of plans and their transfers.
use flume_ascend_host_bypass.Prelude.{ℕ, ◌+◌, ◌%◌, ◌^◌, ◌≡◌, refl, some, List, [], ◌∷◌, ◌++◌, arith}
use flume_ascend_host_bypass.Protocol.Words.{
  be32, be64, append_u16, append_u32, append_u64, append_u64_loop,
}
use flume_ascend_host_bypass.Protocol.Checksum.{checksum32}
use flume_ascend_host_bypass.Protocol.Stream.{Received, got, took, write_all}
use flume_ascend_host_bypass.Protocol.Stream.Laws.{Delivers}
use flume_ascend_host_bypass.Protocol.FrameType
use flume_ascend_host_bypass.Protocol.Frame.{Frame, header, write_frame}
use flume_ascend_host_bypass.Storage.PosixFile.{read, read_loop}
use flume_ascend_host_bypass.Storage.Samples.{system, content, preads-IsPread}
use flume_ascend_host_bypass.Agent.{handle_request}
use flume_ascend_host_bypass.Agent.Table.{find}
use flume_ascend_host_bypass.Agent.Replies.{read_request, payload_body, handle_request-read}
use flume_ascend_host_bypass.Agent.Samples.{file, agent, req, req-IsReadReq}
use flume_ascend_host_bypass.Client.Status
use flume_ascend_host_bypass.Client.BufferType
use flume_ascend_host_bypass.Client.Memory.{store}
use flume_ascend_host_bypass.Client.Buffer.{Buffer, is_readable_local_type}
use flume_ascend_host_bypass.Client.Io.{text, file_to_comm, make_io}
use flume_ascend_host_bypass.Client.Files.{Connection, returned, flume_pread_async}
use flume_ascend_host_bypass.Client.Files.Remote.{Carries, flume_pread_async-handle_request}
use flume_ascend_host_bypass.Client.Storage.Prepare.{
  flume_prepare_storage_block_async, flume_prepare_storage_block_async-handle_request,
}

abbrev payload : List ℕ
payload = 12 ∷ 13 ∷ 14 ∷ []

abbrev reply : Frame
reply = record { type = FrameType.read_resp; request_id = 40; body = payload_body payload }

abbrev head_rest : List ℕ
head_rest =
    76 ∷ 85 ∷ 77 ∷ 0 ∷ 1 ∷ 0 ∷ 6 ∷ 0 ∷ 0 ∷ 0 ∷ 0 ∷ 0 ∷ 0 ∷ 0 ∷ 0 ∷ 0 ∷ 0 ∷ 0 ∷ 40 ∷ 0 ∷ 0 ∷ 0 ∷ 23
    ∷ 0 ∷ 0 ∷ 0 ∷ 0 ∷ []

abbrev body_rest : List ℕ
body_rest = 0 ∷ 0 ∷ 0 ∷ (be64 3 ++ (be32 (checksum32 payload) ++ (be32 0 ++ payload)))

abbrev behind : List Received
behind = got (0 ∷ body_rest) ∷ []

abbrev connection : Connection
connection = record {
  next_request_id = 40;
  sink = record { answers = took 28 ∷ took 24 ∷ []; wire = [] };
  input = got (70 ∷ head_rest) ∷ behind;
}

abbrev wire : List ℕ
wire = (70 ∷ head_rest) ++ (0 ∷ body_rest)

carried : Carries reply connection.input []
unfolding write_frame write_all header append_u16 append_u32 append_u64 append_u64_loop
carried = record {
  from = record { answers = took 28 ∷ took 23 ∷ []; wire = [] };
  to = record { answers = []; wire = wire };
  head = 70 ∷ head_rest;
  body = 0 ∷ body_rest;
  middle = behind;
  written = refl;
  wire = refl;
  head_arrives = Delivers.chunk 70 head_rest refl Delivers.none_left;
  body_arrives = Delivers.chunk 0 body_rest refl Delivers.none_left;
}

abbrev sent_bytes : List ℕ
sent_bytes = header (read_request 40 req) ++ (read_request 40 req).body

answered : (handle_request system (read_request 40 req) agent).0 ≡ some reply
unfolding find read read_loop
answered =
    (handle_request-read system agent 40 req file 9 content req-IsReadReq (omega arith)
      (omega arith) refl refl preads-IsPread refl).0

abbrev dst : Buffer
dst = record { handle = 1; client = 7; ptr = 500; len = 8; type = BufferType.host }

flume_pread_async-handle_request_example :
    flume_pread_async (record { file_id = 1; size = 6; path = [] }) dst 3 2 4 connection (λ a. 0)
    ≡ record {
      result = returned Status.ok (some (make_io Status.ok 3 (checksum32 payload) (text [])));
      connection = record {
        next_request_id = (40 + 1) % 2 ^ 64;
        sink = record { answers = []; wire = sent_bytes };
        input = [];
      };
      memory = store (λ a. 0) (500 + 4) payload;
    }
unfolding find read read_loop write_frame write_all header append_u16 append_u32 append_u64
    append_u64_loop is_readable_local_type
flume_pread_async-handle_request_example =
    flume_pread_async-handle_request system agent req file 9 content connection
      (record { answers = []; wire = sent_bytes }) reply [] 6 dst 4 (λ a. 0) {out = payload}
      req-IsReadReq (omega arith) (omega arith) (omega arith) refl refl preads-IsPread refl
      (omega arith) refl refl answered carried

flume_prepare_storage_block_async-handle_request_example :
    let p =
      flume_prepare_storage_block_async 7 900
        (record { file_id = 1; size = 6; path = [] })
        2
        3
        connection
        (λ a. 0) in
    (p.result ≡ returned Status.ok (some (make_io Status.ok 3 (checksum32 payload) file_to_comm)))
    × (p.block ≡ some (record { client = 7; payload = payload; file_offset = 2 }))
unfolding find read read_loop write_frame write_all header append_u16 append_u32 append_u64
    append_u64_loop
flume_prepare_storage_block_async-handle_request_example =
    flume_prepare_storage_block_async-handle_request system agent req file 9 content connection
      (record { answers = []; wire = sent_bytes }) reply [] 6 7 900 (λ a. 0) {out = payload}
      req-IsReadReq (omega arith) (omega arith) (omega arith) (omega arith) refl refl preads-IsPread
      refl refl answered carried
