-- ===== src/Roce/Session.antt =====
-- src/roce_storage/roce_storage.cc: the request and the response that open a session.
pub mod RoundTrip
use flume_ascend_host_bypass.Prelude.{
  ℕ, ◌+◌, Bool, true, false, not, ◌&&◌, ◌||◌, Option, none, some, List, [], ◌++◌, length, take,
  drop, bit_and, leb, ltb, ◌==◌, ◌!=◌, if◌then◌else◌,
}
use flume_ascend_host_bypass.Protocol.Words.{IsU16, IsU32, IsU64}
use flume_ascend_host_bypass.Roce.Words.{
  Parse, ◌>>=◌, return, append_u16, append_u32, append_u64, read_u16, read_u32, read_u64,
}
use flume_ascend_host_bypass.Roce.Command.{
  protocol_magic, protocol_version, completion_wire_bytes, memory_remote_write,
}
use flume_ascend_host_bypass.Roce.Endpoint.{
  Endpoint, encode_endpoint, decode_endpoint, endpoint_wire_bytes, IsEndpoint,
}

abbrev pub session_request_wire_bytes : ℕ
session_request_wire_bytes = 64

abbrev pub session_response_wire_bytes : ℕ
session_response_wire_bytes = 64

abbrev pub session_flag_tcp_control : ℕ
session_flag_tcp_control = 1

abbrev pub session_flag_pull_transfer : ℕ
session_flag_pull_transfer = 2

-- ~kSessionKnownFlags, on 16 bits.
abbrev pub session_unknown_flags : ℕ
session_unknown_flags = 0xfffc

pub record MemoryWindow : Type 0 where
  pub address : ℕ
  pub size : ℕ
  pub rkey : ℕ
  pub access : ℕ

pub record SessionRequest : Type 0 where
  pub endpoint : Endpoint
  pub completion : MemoryWindow
  pub flags : ℕ

pub record SessionResponse : Type 0 where
  pub endpoint : Endpoint
  pub namespace_capacity : ℕ
  pub max_transfer_bytes : ℕ
  pub server_capabilities : ℕ
  pub status : ℕ

pub data TransferMode : Type 0 where
  push : TransferMode
  pull : TransferMode

unfoldable pub is_tcp : SessionRequest → Bool
is_tcp r = bit_and r.flags session_flag_tcp_control != 0

unfoldable pub session_transfer_mode : SessionRequest → TransferMode
session_transfer_mode r =
    if bit_and r.flags session_flag_pull_transfer != 0 then TransferMode.pull else TransferMode.push

-- The window that a completion is written to.
valid_completion : MemoryWindow → Bool
valid_completion c =
    (c.address != 0)
    && (leb completion_wire_bytes c.size
        && ((c.rkey != 0) && (bit_and c.access memory_remote_write != 0)))

-- The refusal of the encoder.
unfoldable pub is_refused : SessionRequest → Bool
unfolding is_tcp valid_completion
is_refused r =
    (bit_and r.flags session_unknown_flags != 0)
    || ((not (is_tcp r) && not (valid_completion r.completion))
        || (is_tcp r
            && ((r.completion.address != 0)
                || ((r.completion.size != 0)
                    || ((r.completion.rkey != 0) || (r.completion.access != 0))))))

unfoldable pub request_wire : SessionRequest → Option (List ℕ) → Option (List ℕ)
request_wire r none = none
request_wire r (some endpoint) =
    let w = append_u32 protocol_magic [] in
    let w = append_u16 protocol_version w in
    let w = append_u16 r.flags w in
    let w = w ++ endpoint in
    let w = append_u64 r.completion.address w in
    let w = append_u64 r.completion.size w in
    let w = append_u32 r.completion.rkey w in
    let w = append_u32 r.completion.access w in
    if length w == session_request_wire_bytes then some w else none

unfoldable pub encode_session_request : SessionRequest → Option (List ℕ)
encode_session_request r =
    if is_refused r then none else request_wire r (encode_endpoint r.endpoint)

-- A read that goes on only where a test holds, and the endpoint inside a longer message.
unfoldable pub check : Bool → Parse ℕ
check b wire offset = if b then some (0, offset) else none

embedded_endpoint : Option Endpoint → ℕ → Option (Endpoint × ℕ)
embedded_endpoint none offset = none
embedded_endpoint (some e) offset = some (e, offset + endpoint_wire_bytes)

unfoldable pub read_endpoint : Parse Endpoint
unfolding embedded_endpoint
read_endpoint wire offset =
    embedded_endpoint (decode_endpoint (take endpoint_wire_bytes (drop offset wire))) offset

unfoldable pub request_fields : Parse SessionRequest
request_fields = do
  magic ← read_u32
  version ← read_u16
  flags ← read_u16
  _ ← check ((magic == protocol_magic) && (version == protocol_version))
  endpoint ← read_endpoint
  address ← read_u64
  size ← read_u64
  rkey ← read_u32
  access ← read_u32
  return (record {
    endpoint = endpoint;
    completion = record { address = address; size = size; rkey = rkey; access = access };
    flags = flags;
  })

-- The acceptance of the decoder.
unfoldable pub is_accepted : SessionRequest → Bool
unfolding is_tcp valid_completion
is_accepted r =
    if bit_and r.flags session_unknown_flags != 0
    then false
    else if is_tcp r
    then (r.completion.address == 0)
      && ((r.completion.size == 0) && ((r.completion.rkey == 0) && (r.completion.access == 0)))
    else valid_completion r.completion

unfoldable pub check_request : Option (SessionRequest × ℕ) → Option SessionRequest
check_request none = none
check_request (some (r, offset)) = if is_accepted r then some r else none

unfoldable pub decode_session_request : List ℕ → Option SessionRequest
decode_session_request wire =
    if length wire != session_request_wire_bytes
    then none
    else check_request (request_fields wire 0)

unfoldable pub response_wire : SessionResponse → Option (List ℕ) → Option (List ℕ)
response_wire r none = none
response_wire r (some endpoint) =
    let w = append_u32 protocol_magic [] in
    let w = append_u16 protocol_version w in
    let w = append_u16 r.status w in
    let w = w ++ endpoint in
    let w = append_u64 r.namespace_capacity w in
    let w = append_u64 r.max_transfer_bytes w in
    let w = append_u32 r.server_capabilities w in
    let w = append_u32 0 w in if length w == session_response_wire_bytes then some w else none

unfoldable pub encode_session_response : SessionResponse → Option (List ℕ)
encode_session_response r =
    if (r.namespace_capacity == 0) || (r.max_transfer_bytes == 0)
    then none
    else response_wire r (encode_endpoint r.endpoint)

unfoldable pub response_fields : Parse (SessionResponse × ℕ)
response_fields = do
  magic ← read_u32
  version ← read_u16
  status ← read_u16
  _ ← check ((magic == protocol_magic) && (version == protocol_version))
  endpoint ← read_endpoint
  namespace_capacity ← read_u64
  max_transfer_bytes ← read_u64
  server_capabilities ← read_u32
  reserved ← read_u32
  return (
    record {
      endpoint = endpoint;
      namespace_capacity = namespace_capacity;
      max_transfer_bytes = max_transfer_bytes;
      server_capabilities = server_capabilities;
      status = status;
    },
    reserved,
  )

unfoldable pub check_response : Option ((SessionResponse × ℕ) × ℕ) → Option SessionResponse
check_response none = none
check_response (some ((r, reserved), offset)) =
    if (reserved == 0) && ((r.namespace_capacity != 0) && (r.max_transfer_bytes != 0))
    then some r
    else none

unfoldable pub decode_session_response : List ℕ → Option SessionResponse
decode_session_response wire =
    if length wire != session_response_wire_bytes
    then none
    else check_response (response_fields wire 0)

pub record IsRequest (r : SessionRequest) : Type 0 where
  pub endpoint_fits : IsEndpoint r.endpoint
  pub flags_fit : IsU16 r.flags
  pub address_fits : IsU64 r.completion.address
  pub size_fits : IsU64 r.completion.size
  pub rkey_fits : IsU32 r.completion.rkey
  pub access_fits : IsU32 r.completion.access

pub record IsResponse (r : SessionResponse) : Type 0 where
  pub endpoint_fits : IsEndpoint r.endpoint
  pub status_fits : IsU16 r.status
  pub capacity_fits : IsU64 r.namespace_capacity
  pub max_transfer_fits : IsU64 r.max_transfer_bytes
  pub capabilities_fit : IsU32 r.server_capabilities
