-- ===== src/Roce/Endpoint/RoundTrip.antt =====
-- A decoder reads back the endpoint that the encoder wrote.
use flume_ascend_host_bypass.Prelude.{ℕ, ◌+◌, ◌≡◌, true, some, List, [], ◌∷◌, ◌++◌, arith, length}
use flume_ascend_host_bypass.Protocol.Words.{IsU32}
use flume_ascend_host_bypass.Roce.Words.{append_loop, append_u32, read_u32, le32, load32-le32}
use flume_ascend_host_bypass.Roce.Endpoint.{
  Endpoint, is_usable, encode_endpoint, decode_endpoint, endpoint_fields, check_endpoint, IsGid,
  IsEndpoint,
}

abbrev pub endpoint_bytes : Endpoint → List ℕ
endpoint_bytes e =
    e.gid ++ (le32 e.qpn ++ (le32 e.psn ++ (e.port ∷ e.gid_index ∷ e.mtu ∷ 0 ∷ 0 ∷ 0 ∷ 0 ∷ 0 ∷ [])))

encode_gid :
    (g : List ℕ) (q p o i m : ℕ)
    → IsGid g
    → is_usable (record { gid = g; qpn = q; psn = p; port = o; gid_index = i; mtu = m }) ≡ true
    → encode_endpoint (record { gid = g; qpn = q; psn = p; port = o; gid_index = i; mtu = m })
      ≡ some
          (endpoint_bytes (record { gid = g; qpn = q; psn = p; port = o; gid_index = i; mtu = m }))
unfolding encode_endpoint append_u32 append_loop
encode_gid _ q p o i m (IsGid.sixteen b0 b1 b2 b3 b4 b5 b6 b7 b8 b9 b10 b11 b12 b13 b14 b15) h =
    rw h

gid_fields :
    (g : List ℕ) (q p o i m : ℕ)
    → IsGid g
    → IsU32 q
    → IsU32 p
    → endpoint_fields
        (endpoint_bytes (record { gid = g; qpn = q; psn = p; port = o; gid_index = i; mtu = m }))
        16
      ≡ some (
        (
          record { gid = g; qpn = q; psn = p; port = o; gid_index = i; mtu = m },
          0 ∷ 0 ∷ 0 ∷ 0 ∷ 0 ∷ [],
        ),
        27,
      )
unfolding endpoint_fields read_u32
gid_fields _ q p o i m (IsGid.sixteen b0 b1 b2 b3 b4 b5 b6 b7 b8 b9 b10 b11 b12 b13 b14 b15) hq hp =
    ground (
      arith,
      load32-le32 q (le32 p ++ (o ∷ i ∷ m ∷ 0 ∷ 0 ∷ 0 ∷ 0 ∷ 0 ∷ [])) hq,
      load32-le32 p (o ∷ i ∷ m ∷ 0 ∷ 0 ∷ 0 ∷ 0 ∷ 0 ∷ []) hp,
    )

length-gid : (g rest : List ℕ) → IsGid g → length (g ++ rest) ≡ 16 + length rest
length-gid _ rest (IsGid.sixteen b0 b1 b2 b3 b4 b5 b6 b7 b8 b9 b10 b11 b12 b13 b14 b15) =
    ground arith

pub encode_endpoint_lem :
    (e : Endpoint) → IsEndpoint e → is_usable e ≡ true → encode_endpoint e ≡ some (endpoint_bytes e)
encode_endpoint_lem e v u = encode_gid e.gid e.qpn e.psn e.port e.gid_index e.mtu v.gid_fits u

pub decode_endpoint-bytes :
    (e : Endpoint) → IsEndpoint e → is_usable e ≡ true → decode_endpoint (endpoint_bytes e) ≡ some e
unfolding decode_endpoint check_endpoint
decode_endpoint-bytes e v u =
    rw
      (length-gid e.gid
        (le32 e.qpn ++ (le32 e.psn ++ (e.port ∷ e.gid_index ∷ e.mtu ∷ 0 ∷ 0 ∷ 0 ∷ 0 ∷ 0 ∷ [])))
        v.gid_fits)
      (rw
        (gid_fields e.gid e.qpn e.psn e.port e.gid_index e.mtu v.gid_fits v.qpn_fits v.psn_fits, u))

-- An endpoint with a gid of 16 bytes and numbers that fit their types, which the encoder's test
-- lets through, is encoded, and the decoder reads the same endpoint back.
pub decode_endpoint-encode_endpoint :
    (e : Endpoint)
    → IsEndpoint e
    → is_usable e ≡ true
    → (w : List ℕ) × (encode_endpoint e ≡ some w) × (decode_endpoint w ≡ some e)
decode_endpoint-encode_endpoint e v u =
    (endpoint_bytes e, encode_endpoint_lem e v u, decode_endpoint-bytes e v u)

-- Thirty-two bytes.
pub data Is32 : List ℕ → Type 0 where
  bytes32 :
      (a0 a1 a2 a3 a4 a5 a6 a7 b0 b1 b2 b3 b4 b5 b6 b7 : ℕ)
      (c0 c1 c2 c3 c4 c5 c6 c7 d0 d1 d2 d3 d4 d5 d6 d7 : ℕ)
      → Is32 (
          a0 ∷ a1 ∷ a2 ∷ a3 ∷ a4 ∷ a5 ∷ a6 ∷ a7 ∷ b0 ∷ b1 ∷ b2 ∷ b3 ∷ b4 ∷ b5 ∷ b6 ∷ b7 ∷ c0 ∷ c1
          ∷ c2 ∷ c3 ∷ c4 ∷ c5 ∷ c6 ∷ c7 ∷ d0 ∷ d1 ∷ d2 ∷ d3 ∷ d4 ∷ d5 ∷ d6 ∷ d7 ∷ [])

bytes-Is32 :
    (g : List ℕ) (q p o i m : ℕ)
    → IsGid g
    → Is32 (endpoint_bytes (record { gid = g; qpn = q; psn = p; port = o; gid_index = i; mtu = m }))
bytes-Is32 _ q p o i m (IsGid.sixteen b0 b1 b2 b3 b4 b5 b6 b7 b8 b9 b10 b11 b12 b13 b14 b15) =
    Is32.bytes32 _ _ _ _ _ _ _ _ _ _ _ _ _ _ _ _ _ _ _ _ _ _ _ _ _ _ _ _ _ _ _ _

pub endpoint_bytes-Is32 : (e : Endpoint) → IsEndpoint e → Is32 (endpoint_bytes e)
endpoint_bytes-Is32 e v = bytes-Is32 e.gid e.qpn e.psn e.port e.gid_index e.mtu v.gid_fits
