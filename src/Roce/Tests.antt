-- ===== src/Roce/Tests.antt =====
-- The properties of the storage protocol, applied to samples.
use flume_ascend_host_bypass.Prelude.{ℕ, ◌≡◌, refl, some, List, [], ◌∷◌, length, get_or, arith}
use flume_ascend_host_bypass.Roce.Command.{
  Command, Completion, IsCommand, IsCompletion, is_sendable, encode_command, encode_completion,
  decode_completion,
}
use flume_ascend_host_bypass.Roce.Command.RoundTrip.{decode_completion-encode_completion, travelled}
use flume_ascend_host_bypass.Roce.Endpoint.{
  Endpoint, IsEndpoint, IsGid, is_usable, encode_endpoint, decode_endpoint,
}
use flume_ascend_host_bypass.Roce.Endpoint.RoundTrip.{decode_endpoint-encode_endpoint}
use flume_ascend_host_bypass.Roce.Session.{
  SessionRequest, SessionResponse, IsRequest, IsResponse, is_refused, encode_session_request,
  decode_session_request, encode_session_response, decode_session_response,
}
use flume_ascend_host_bypass.Roce.Session.RoundTrip.{
  decode_session_request-encode_session_request, decode_session_response-encode_session_response,
}
use flume_ascend_host_bypass.Protocol.Stream.{took, got}
use flume_ascend_host_bypass.Protocol.Stream.Laws.{Delivers}
use flume_ascend_host_bypass.Roce.Words.{append_u16, append_u32, append_u64, append_loop}
use flume_ascend_host_bypass.Roce.Control.{
  send_command, receive_command, control_write_all, success,
}
use flume_ascend_host_bypass.Roce.Control.Laws.{receive_command-send_command}
use flume_ascend_host_bypass.Roce.Memory.{memory_write}
use flume_ascend_host_bypass.Roce.Memory.Laws.{memory_write-bytes}
use flume_ascend_host_bypass.Roce.Lifecycle.{
  Call, call, on_local_resources_ready, on_bootstrapped, on_connected, begin_request,
  complete_request,
}
use flume_ascend_host_bypass.Roce.Lifecycle.Runs.{
  IsSound, begin, run, begin-IsSound, run-IsSound, complete_request-last,
}

abbrev command : Command
command = record {
  request_id = 3;
  operation = 1;
  object_id = 4;
  storage_offset = 4096;
  size = 512;
  npu_address = 65536;
  npu_rkey = 77;
  npu_access = 3;
}

command-IsCommand : IsCommand command
command-IsCommand = record {
  request_id_fits = omega arith;
  operation_fits = omega arith;
  object_id_fits = omega arith;
  storage_offset_fits = omega arith;
  size_fits = omega arith;
  npu_address_fits = omega arith;
  npu_rkey_fits = omega arith;
  npu_access_fits = omega arith;
}

abbrev completion : Completion
completion = record { request_id = 3; status = 65538; bytes = 512; checksum = 9; flags = 0 }

completion-IsCompletion : IsCompletion completion
completion-IsCompletion = record {
  request_id_fits = omega arith;
  status_fits = omega arith;
  bytes_fits = omega arith;
  checksum_fits = omega arith;
  flags_fits = omega arith;
}

decode_completion-encode_completion_example :
    (w : List ℕ) × (encode_completion completion ≡ some w)
    × (decode_completion w ≡ some (travelled completion))
decode_completion-encode_completion_example =
    decode_completion-encode_completion completion completion-IsCompletion refl

abbrev endpoint : Endpoint
endpoint = record {
  gid = 254 ∷ 128 ∷ 0 ∷ 0 ∷ 0 ∷ 0 ∷ 0 ∷ 0 ∷ 2 ∷ 0 ∷ 0 ∷ 255 ∷ 254 ∷ 0 ∷ 0 ∷ 1 ∷ [];
  qpn = 17;
  psn = 99;
  port = 1;
  gid_index = 3;
  mtu = 3;
}

endpoint-IsEndpoint : IsEndpoint endpoint
endpoint-IsEndpoint = record {
  gid_fits = IsGid.sixteen 254 128 0 0 0 0 0 0 2 0 0 255 254 0 0 1;
  qpn_fits = omega arith;
  psn_fits = omega arith;
}

decode_endpoint-encode_endpoint_example :
    (w : List ℕ) × (encode_endpoint endpoint ≡ some w) × (decode_endpoint w ≡ some endpoint)
unfolding is_usable
decode_endpoint-encode_endpoint_example =
    decode_endpoint-encode_endpoint endpoint endpoint-IsEndpoint refl

abbrev request : SessionRequest
request = record {
  endpoint = endpoint;
  completion = record { address = 4096; size = 64; rkey = 5; access = 1 };
  flags = 2;
}

request-IsRequest : IsRequest request
request-IsRequest = record {
  endpoint_fits = endpoint-IsEndpoint;
  flags_fit = omega arith;
  address_fits = omega arith;
  size_fits = omega arith;
  rkey_fits = omega arith;
  access_fits = omega arith;
}

decode_session_request-encode_session_request_example :
    (w : List ℕ) × (encode_session_request request ≡ some w)
    × (decode_session_request w ≡ some request)
unfolding is_refused is_usable
decode_session_request-encode_session_request_example =
    decode_session_request-encode_session_request request request-IsRequest refl refl

abbrev response : SessionResponse
response = record {
  endpoint = endpoint;
  namespace_capacity = 1048576;
  max_transfer_bytes = 4096;
  server_capabilities = 17;
  status = 0;
}

response-IsResponse : IsResponse response
response-IsResponse = record {
  endpoint_fits = endpoint-IsEndpoint;
  status_fits = omega arith;
  capacity_fits = omega arith;
  max_transfer_fits = omega arith;
  capabilities_fit = omega arith;
}

decode_session_response-encode_session_response_example :
    (w : List ℕ) × (encode_session_response response ≡ some w)
    × (decode_session_response w ≡ some response)
unfolding is_usable
decode_session_response-encode_session_response_example =
    decode_session_response-encode_session_response response response-IsResponse refl refl

abbrev calls : List Call
calls = Call.ready ∷ Call.bootstrap ∷ Call.connect ∷ Call.start 8 ∷ Call.complete 9 ∷ []

run-IsSound_example : IsSound (run calls begin)
run-IsSound_example = run-IsSound calls begin begin-IsSound

complete_request-last_example : (run calls begin).last ≡ some (Call.start 8)
unfolding run call on_local_resources_ready on_bootstrapped on_connected begin_request
    complete_request
complete_request-last_example = complete_request-last calls 8 refl

abbrev command_tail : List ℕ
command_tail =
    82 ∷ 76 ∷ 70 ∷ 2 ∷ 0 ∷ 1 ∷ 0 ∷ 3 ∷ 0 ∷ 0 ∷ 0 ∷ 0 ∷ 0 ∷ 0 ∷ 0 ∷ 4 ∷ 0 ∷ 0 ∷ 0 ∷ 0 ∷ 0 ∷ 0 ∷ 0 ∷ 0
    ∷ 16 ∷ 0 ∷ 0 ∷ 0 ∷ 0 ∷ 0 ∷ 0 ∷ 0 ∷ 2 ∷ 0 ∷ 0 ∷ 0 ∷ 0 ∷ 0 ∷ 0 ∷ 0 ∷ 0 ∷ 1 ∷ 0 ∷ 0 ∷ 0 ∷ 0 ∷ 0
    ∷ 77 ∷ 0 ∷ 0 ∷ 0 ∷ 3 ∷ 0 ∷ 0 ∷ 0 ∷ 0 ∷ 0 ∷ 0 ∷ 0 ∷ 0 ∷ 0 ∷ 0 ∷ 0 ∷ []

receive_command-send_command_example :
    ((send_command (took 64 ∷ []) [] command).2 ≡ 67 ∷ command_tail)
    × (receive_command (got (67 ∷ command_tail) ∷ []) ≡ (success command, []))
unfolding is_sendable encode_command append_u16 append_u32 append_u64 append_loop send_command
    control_write_all
receive_command-send_command_example =
    receive_command-send_command command (took 64 ∷ []) [] command-IsCommand refl refl refl
      (Delivers.chunk 67 command_tail refl Delivers.none_left)

memory_write-bytes_example :
    (after : List ℕ) × (memory_write (1 ∷ 2 ∷ 3 ∷ 4 ∷ []) 1 (8 ∷ 9 ∷ []) ≡ some after)
    × (length after ≡ 4)
    × (get_or after 2 0 ≡ 9)
memory_write-bytes_example = memory_write-bytes (1 ∷ 2 ∷ 3 ∷ 4 ∷ []) 1 (8 ∷ 9 ∷ []) 2 (omega arith)
