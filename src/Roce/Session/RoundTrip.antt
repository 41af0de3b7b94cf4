-- ===== src/Roce/Session/RoundTrip.antt =====
-- A decoder reads back the session request and the session response that an encoder wrote.
use flume_ascend_host_bypass.Prelude.{
  true, ℕ, ◌≡◌, refl, ◌||◌, false, not, some, List, [], ◌∷◌, ◌++◌, arith, drop, take, length, ◌==◌,
}
use flume_ascend_host_bypass.Roce.Words.{
  append_loop, append_u16, append_u32, append_u64, read_u16, read_u32, read_u64, le16, le32, le64,
  load16-le16, load32-le32, load64-le64,
}
use flume_ascend_host_bypass.Roce.Command.{protocol_magic, protocol_version}
use flume_ascend_host_bypass.Roce.Endpoint.{is_usable, decode_endpoint}
use flume_ascend_host_bypass.Roce.Endpoint.RoundTrip.{
  endpoint_bytes, encode_endpoint_lem, decode_endpoint-bytes, endpoint_bytes-Is32, Is32,
}
use flume_ascend_host_bypass.Roce.Session.{
  SessionRequest, SessionResponse, encode_session_request, decode_session_request, is_refused,
  is_accepted, request_wire, request_fields, check_request, check, read_endpoint, IsRequest,
  IsResponse, encode_session_response, decode_session_response, response_wire, response_fields,
  check_response,
}

-- The two sides test the same thing.
is_refused_or_accepted : (r : SessionRequest) → is_refused r ≡ not (is_accepted r)
unfolding is_refused is_accepted
is_refused_or_accepted r = ground arith

abbrev request_bytes : SessionRequest → List ℕ → List ℕ
request_bytes r e =
    le32 protocol_magic
    ++ (le16 protocol_version
        ++ (le16 r.flags
            ++ (e
                ++ (le64 r.completion.address
                    ++ (le64 r.completion.size
                        ++ (le32 r.completion.rkey ++ le32 r.completion.access))))))

request_wire_lem :
    (r : SessionRequest) (e : List ℕ) → Is32 e → request_wire r (some e) ≡ some (request_bytes r e)
unfolding request_wire append_u16 append_u32 append_u64 append_loop
request_wire_lem r _
      (Is32.bytes32 a0 a1 a2 a3 a4 a5 a6 a7 b0 b1 b2 b3 b4 b5 b6 b7 c0 c1 c2 c3 c4 c5 c6 c7 d0 d1 d2
        d3 d4 d5 d6 d7) =
    refl

-- Both messages are eight bytes, an endpoint, and 24 bytes behind it.
take_endpoint :
    (a0 a1 a2 a3 a4 a5 a6 a7 : ℕ) (e rest : List ℕ)
    → Is32 e
    → take 32 (drop 8 (a0 ∷ a1 ∷ a2 ∷ a3 ∷ a4 ∷ a5 ∷ a6 ∷ a7 ∷ (e ++ rest))) ≡ e
take_endpoint i0 i1 i2 i3 i4 i5 i6 i7 _ rest
      (Is32.bytes32 a0 a1 a2 a3 a4 a5 a6 a7 b0 b1 b2 b3 b4 b5 b6 b7 c0 c1 c2 c3 c4 c5 c6 c7 d0 d1 d2
        d3 d4 d5 d6 d7) =
    refl

request_fields-bytes :
    (r : SessionRequest) (e : List ℕ)
    → IsRequest r
    → Is32 e
    → decode_endpoint e ≡ some r.endpoint
    → request_fields (request_bytes r e) 0 ≡ some (r, 64)
unfolding request_fields read_u16 read_u32 read_u64 check read_endpoint
request_fields-bytes r _ v
      (Is32.bytes32 a0 a1 a2 a3 a4 a5 a6 a7 b0 b1 b2 b3 b4 b5 b6 b7 c0 c1 c2 c3 c4 c5 c6 c7 d0 d1 d2
        d3 d4 d5 d6 d7)
      h =
    ground (
      arith,
      h,
      load16-le16 r.flags v.flags_fit,
      load64-le64 r.completion.address
          (le64 r.completion.size ++ (le32 r.completion.rkey ++ le32 r.completion.access))
          v.address_fits,
      load64-le64 r.completion.size (le32 r.completion.rkey ++ le32 r.completion.access)
          v.size_fits,
      load32-le32 r.completion.rkey (le32 r.completion.access) v.rkey_fits,
      load32-le32 r.completion.access [] v.access_fits,
    )

length-request_bytes : (r : SessionRequest) (e : List ℕ) → Is32 e → length (request_bytes r e) ≡ 64
length-request_bytes r _
      (Is32.bytes32 a0 a1 a2 a3 a4 a5 a6 a7 b0 b1 b2 b3 b4 b5 b6 b7 c0 c1 c2 c3 c4 c5 c6 c7 d0 d1 d2
        d3 d4 d5 d6 d7) =
    refl

decode_request-bytes :
    (r : SessionRequest) (e : List ℕ)
    → IsRequest r
    → Is32 e
    → decode_endpoint e ≡ some r.endpoint
    → is_refused r ≡ false
    → decode_session_request (request_bytes r e) ≡ some r
unfolding decode_session_request check_request
decode_request-bytes r e v b d k =
    rw (length-request_bytes r e b)
      (rw (request_fields-bytes r e v b d) (ground (arith, is_refused_or_accepted r, k)))

-- A session request whose fields fit their types, which the encoder does not refuse and whose
-- endpoint its test lets through, is encoded, and the decoder reads the same request back.
pub decode_session_request-encode_session_request :
    (r : SessionRequest)
    → IsRequest r
    → is_refused r ≡ false
    → is_usable r.endpoint ≡ true
    → (w : List ℕ) × (encode_session_request r ≡ some w) × (decode_session_request w ≡ some r)
unfolding encode_session_request
decode_session_request-encode_session_request r v k u =
    let e = endpoint_bytes r.endpoint in
    let b = endpoint_bytes-Is32 r.endpoint v.endpoint_fits in
    (
      request_bytes r e,
      rw (k, encode_endpoint_lem r.endpoint v.endpoint_fits u) (request_wire_lem r e b),
      decode_request-bytes r e v b (decode_endpoint-bytes r.endpoint v.endpoint_fits u) k,
    )

abbrev response_bytes : SessionResponse → List ℕ → List ℕ
response_bytes r e =
    le32 protocol_magic
    ++ (le16 protocol_version
        ++ (le16 r.status
            ++ (e
                ++ (le64 r.namespace_capacity
                    ++ (le64 r.max_transfer_bytes ++ (le32 r.server_capabilities ++ le32 0))))))

response_wire_lem :
    (r : SessionResponse) (e : List ℕ)
    → Is32 e
    → response_wire r (some e) ≡ some (response_bytes r e)
unfolding response_wire append_u16 append_u32 append_u64 append_loop
response_wire_lem r _
      (Is32.bytes32 a0 a1 a2 a3 a4 a5 a6 a7 b0 b1 b2 b3 b4 b5 b6 b7 c0 c1 c2 c3 c4 c5 c6 c7 d0 d1 d2
        d3 d4 d5 d6 d7) =
    refl

response_fields-bytes :
    (r : SessionResponse) (e : List ℕ)
    → IsResponse r
    → Is32 e
    → decode_endpoint e ≡ some r.endpoint
    → response_fields (response_bytes r e) 0 ≡ some ((r, 0), 64)
unfolding response_fields read_u16 read_u32 read_u64 check read_endpoint
response_fields-bytes r _ v
      (Is32.bytes32 a0 a1 a2 a3 a4 a5 a6 a7 b0 b1 b2 b3 b4 b5 b6 b7 c0 c1 c2 c3 c4 c5 c6 c7 d0 d1 d2
        d3 d4 d5 d6 d7)
      h =
    ground (
      arith,
      h,
      load16-le16 r.status v.status_fits,
      load64-le64 r.namespace_capacity
          (le64 r.max_transfer_bytes ++ (le32 r.server_capabilities ++ le32 0)) v.capacity_fits,
      load64-le64 r.max_transfer_bytes (le32 r.server_capabilities ++ le32 0) v.max_transfer_fits,
      load32-le32 r.server_capabilities (le32 0) v.capabilities_fit,
    )

length-response_bytes :
    (r : SessionResponse) (e : List ℕ) → Is32 e → length (response_bytes r e) ≡ 64
length-response_bytes r _
      (Is32.bytes32 a0 a1 a2 a3 a4 a5 a6 a7 b0 b1 b2 b3 b4 b5 b6 b7 c0 c1 c2 c3 c4 c5 c6 c7 d0 d1 d2
        d3 d4 d5 d6 d7) =
    refl

decode_response-bytes :
    (r : SessionResponse) (e : List ℕ)
    → IsResponse r
    → Is32 e
    → decode_endpoint e ≡ some r.endpoint
    → ((r.namespace_capacity == 0) || (r.max_transfer_bytes == 0)) ≡ false
    → decode_session_response (response_bytes r e) ≡ some r
unfolding decode_session_response check_response
decode_response-bytes r e v b d k =
    rw (length-response_bytes r e b) (rw (response_fields-bytes r e v b d) (ground (arith, k)))

-- A session response whose fields fit their types, with a capacity and a largest transfer that are
-- not 0 and an endpoint that the encoder's test lets through, is encoded, and the decoder reads the
-- same response back.
pub decode_session_response-encode_session_response :
    (r : SessionResponse)
    → IsResponse r
    → ((r.namespace_capacity == 0) || (r.max_transfer_bytes == 0)) ≡ false
    → is_usable r.endpoint ≡ true
    → (w : List ℕ) × (encode_session_response r ≡ some w) × (decode_session_response w ≡ some r)
unfolding encode_session_response
decode_session_response-encode_session_response r v k u =
    let e = endpoint_bytes r.endpoint in
    let b = endpoint_bytes-Is32 r.endpoint v.endpoint_fits in
    (
      response_bytes r e,
      rw (k, encode_endpoint_lem r.endpoint v.endpoint_fits u) (response_wire_lem r e b),
      decode_response-bytes r e v b (decode_endpoint-bytes r.endpoint v.endpoint_fits u) k,
    )
