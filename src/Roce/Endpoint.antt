-- ===== src/Roce/Endpoint.antt =====
-- src/roce_storage/roce_storage.cc: the endpoint of a queue pair on the wire, and the path MTU codes.
-- The gid is a list of bytes; it is an array of 16 in the source, which IsGid says.
pub mod RoundTrip
use flume_ascend_host_bypass.Prelude.{
  ℕ, ◌+◌, Bool, true, false, not, ◌&&◌, ◌||◌, Option, none, some, List, [], ◌∷◌, ◌++◌, length, take,
  drop, get_or, ltb, leb, ◌==◌, ◌!=◌, if◌then◌else◌,
}
use flume_ascend_host_bypass.Protocol.Words.{IsU32, IsByte}
use flume_ascend_host_bypass.Roce.Words.{Parse, ◌>>=◌, return, append_u32, read_u32}

abbrev pub endpoint_wire_bytes : ℕ
endpoint_wire_bytes = 32

pub record Endpoint : Type 0 where
  pub gid : List ℕ
  pub qpn : ℕ
  pub psn : ℕ
  pub port : ℕ
  pub gid_index : ℕ
  pub mtu : ℕ

unfoldable pub path_mtu_from_bytes : ℕ → Option ℕ
path_mtu_from_bytes bytes =
    if bytes == 1024
    then some 3
    else if bytes == 2048
    then some 4
    else if bytes == 4096
    then some 5
    else none

unfoldable pub path_mtu_bytes : ℕ → ℕ
path_mtu_bytes mtu =
    if mtu == 1
    then 256
    else if mtu == 2
    then 512
    else if mtu == 3
    then 1024
    else if mtu == 4
    then 2048
    else if mtu == 5
    then 4096
    else 0

-- The test of the decoder; the encoder writes its negation.
unfoldable pub is_usable : Endpoint → Bool
unfolding path_mtu_bytes
is_usable e =
    (e.qpn != 0) && (leb e.psn 0x00ffffff && ((e.port != 0) && (path_mtu_bytes e.mtu != 0)))

unfoldable pub encode_endpoint : Endpoint → Option (List ℕ)
encode_endpoint e =
    if not (is_usable e)
    then none
    else let w = append_u32 e.psn (append_u32 e.qpn e.gid) in
      let w = w ++ (e.port ∷ []) in
      let w = w ++ (e.gid_index ∷ []) in
      let w = w ++ (e.mtu ∷ []) in some (w ++ (0 ∷ 0 ∷ 0 ∷ 0 ∷ 0 ∷ []))

-- The numbers behind the gid, and the five bytes of padding.
unfoldable pub endpoint_fields : Parse (Endpoint × List ℕ)
endpoint_fields = do
  qpn ← read_u32
  psn ← read_u32
  λ wire offset.
      if offset + 8 != length wire
      then none
      else some (
        (
          record {
            gid = take 16 wire;
            qpn = qpn;
            psn = psn;
            port = get_or (drop offset wire) 0 0;
            gid_index = get_or (drop offset wire) 1 0;
            mtu = get_or (drop offset wire) 2 0;
          },
          take 5 (drop (offset + 3) wire),
        ),
        offset + 3,
      )

all_zero : List ℕ → Bool
all_zero [] = true
all_zero (b ∷ bs) = (b == 0) && all_zero bs

unfoldable pub check_endpoint : Option ((Endpoint × List ℕ) × ℕ) → Option Endpoint
unfolding all_zero
check_endpoint none = none
check_endpoint (some ((e, padding), offset)) =
    if is_usable e && all_zero padding then some e else none

unfoldable pub decode_endpoint : List ℕ → Option Endpoint
decode_endpoint wire =
    if length wire != endpoint_wire_bytes then none else check_endpoint (endpoint_fields wire 16)

-- Sixteen bytes.
pub data IsGid : List ℕ → Type 0 where
  sixteen :
      (b0 b1 b2 b3 b4 b5 b6 b7 b8 b9 b10 b11 b12 b13 b14 b15 : ℕ)
      → IsGid
          (b0 ∷ b1 ∷ b2 ∷ b3 ∷ b4 ∷ b5 ∷ b6 ∷ b7 ∷ b8 ∷ b9 ∷ b10 ∷ b11 ∷ b12 ∷ b13 ∷ b14 ∷ b15 ∷ [])

pub record IsEndpoint (e : Endpoint) : Type 0 where
  pub gid_fits : IsGid e.gid
  pub qpn_fits : IsU32 e.qpn
  pub psn_fits : IsU32 e.psn
