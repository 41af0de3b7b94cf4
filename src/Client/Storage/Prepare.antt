-- ===== src/Client/Storage/Prepare.antt =====
-- src/core/client.cc: flume_prepare_storage_block_async. The bytes of the block stand at an address
-- that the allocator has given; they are read into it from the storage agent.
use flume_ascend_host_bypass.Prelude.{
  ℕ, ◌+◌, ◌≤◌, ◌<◌, ◌≡◌, ◌^◌, refl, ap, ◌∙◌, false, Option, none, some, List, length, take, drop,
  replicate, All, ◌==◌, ◌!=◌, if◌then◌else◌, arith,
}
use flume_ascend_host_bypass.Protocol.Words.{IsU64}
use flume_ascend_host_bypass.Protocol.Checksum.{checksum32}
use flume_ascend_host_bypass.Protocol.Stream.{Received, Sink, ok}
use flume_ascend_host_bypass.Protocol.Frame.{Frame, write_frame}
use flume_ascend_host_bypass.Storage.System.{System, handle}
use flume_ascend_host_bypass.Storage.PosixFile.{OpenedFile, bytes, read}
use flume_ascend_host_bypass.Storage.PosixFile.Range.{IsPread}
use flume_ascend_host_bypass.Agent.{ReadReq, handle_request, max_read_payload_size}
use flume_ascend_host_bypass.Agent.Table.{Agent, find}
use flume_ascend_host_bypass.Agent.Replies.{IsReadReq, read_request}
use flume_ascend_host_bypass.Client.Status
use flume_ascend_host_bypass.Client.BufferType
use flume_ascend_host_bypass.Client.Memory.{Memory, load, store, load-store}
use flume_ascend_host_bypass.Client.Buffer.{Buffer, is_readable_local_type, is_sim_buffer_type}
use flume_ascend_host_bypass.Client.Io.{Io, file_to_comm, make_io}
use flume_ascend_host_bypass.Client.Files.{
  Connection, File, Returned, returned, Reading, flume_pread_async,
}
use flume_ascend_host_bypass.Client.Files.Remote.{Carries, flume_pread_async-handle_request}
use flume_ascend_host_bypass.Client.Storage.{Block}

pub record Prepared : Type 0 where
  pub result : Returned Io
  pub block : Option Block
  pub connection : Connection
  pub memory : Memory

-- The buffer on the stack has no handle of its own, and nothing holds it behind the call.
unfoldable pub temp_buffer : ℕ → ℕ → ℕ → Buffer
temp_buffer client base len = record {
  handle = base;
  client = client;
  ptr = base;
  len = len;
  type = BufferType.sim_hccl_comm;
}

unfoldable pub prepared_from : ℕ → ℕ → ℕ → Returned Io → Reading → Prepared
prepared_from client base file_offset Returned.waiting r = record {
  result = Returned.waiting;
  block = none;
  connection = r.connection;
  memory = r.memory;
}
prepared_from client base file_offset (returned status none) r = record {
  result = returned status none;
  block = none;
  connection = r.connection;
  memory = r.memory;
}
prepared_from client base file_offset (returned status (some io)) r =
    if io.status != Status.ok
    then record {
      result = returned Status.ok (some (make_io io.status io.bytes io.checksum io.error));
      block = none;
      connection = r.connection;
      memory = r.memory;
    }
    else record {
      result = returned Status.ok (some (make_io Status.ok io.bytes io.checksum file_to_comm));
      block = some (record {
        client = client;
        payload = load r.memory base io.bytes;
        file_offset = file_offset;
      });
      connection = r.connection;
      memory = r.memory;
    }

prepared : ℕ → ℕ → ℕ → Reading → Prepared
unfolding prepared_from
prepared client base file_offset r = prepared_from client base file_offset r.result r

unfoldable pub flume_prepare_storage_block_async :
    ℕ → ℕ → File → ℕ → ℕ → Connection → Memory → Prepared
unfolding prepared temp_buffer
flume_prepare_storage_block_async client base file file_offset len c m =
    if len == 0
    then record {
      result = returned Status.invalid_argument none;
      block = none;
      connection = c;
      memory = m;
    }
    else prepared client base file_offset (
        flume_pread_async file (temp_buffer client base len) len file_offset 0 c
          (store m base (replicate len 0)))

-- On the same conditions, and for at least one byte, flume_prepare_storage_block_async returns
-- FLUME_OK, a request with status FLUME_OK and the number and the checksum of the bytes that the
-- file's content has in the range, and a block whose payload is just these bytes.
pub flume_prepare_storage_block_async-handle_request :
    (sys : System) (a : Agent) (r : ReadReq) (served : OpenedFile) (copy : ℕ) (content : List ℕ)
    (c : Connection) (sent : Sink) (reply : Frame) (path : List ℕ) (size client base : ℕ)
    (m : Memory) {out : List ℕ} {after : List Received}
    → IsReadReq r
    → IsU64 c.next_request_id
    → 1 ≤ r.size
    → r.size ≤ max_read_payload_size
    → r.offset + r.size < 2 ^ 64
    → find r.file_id a.files ≡ some served
    → sys.dup served.fd ≡ handle copy
    → All (IsPread content) sys.preads
    → read sys r.offset r.size ≡ bytes out
    → write_frame (read_request c.next_request_id r) c.sink ≡ (ok tt, sent)
    → (handle_request sys (read_request c.next_request_id r) a).0 ≡ some reply
    → Carries reply c.input after
    → let payload = take r.size (drop r.offset content) in
      let p =
        flume_prepare_storage_block_async client base
          (record { file_id = r.file_id; size = size; path = path })
          r.offset
          r.size
          c
          m in
      (p.result
        ≡ returned Status.ok
            (some (make_io Status.ok (length payload) (checksum32 payload) file_to_comm)))
      × (p.block ≡ some (record { client = client; payload = payload; file_offset = r.offset }))
unfolding flume_prepare_storage_block_async prepared temp_buffer
flume_prepare_storage_block_async-handle_request sys a r served copy content c sent reply path size
      client base m v id some_asked fits range known copied p e w answered arrives =
    let payload = take r.size (drop r.offset content) in
    let zeroed = store m base (replicate r.size 0) in
    let asked : (r.size == 0) ≡ false = ground (arith, some_asked) in
    let whole : load (store zeroed (base + 0) payload) base (length payload) ≡ payload =
      ap (λ at. load (store zeroed at payload) base (length payload)) (omega arith)
      ∙ load-store zeroed base payload in
    rw
      (
        asked,
        flume_pread_async-handle_request sys a r served copy content c sent reply path size
            (record {
              handle = base;
              client = client;
              ptr = base;
              len = r.size;
              type = BufferType.sim_hccl_comm;
            })
            0 zeroed v id fits range known copied p e (omega arith)
            (unfold is_readable_local_type is_sim_buffer_type in refl) w answered arrives,
        prepared_from,
      )
      (unfold make_io in
        (
          refl,
          ap (λ x. some (record { client = client; payload = x; file_offset = r.offset })) whole,
        ))
