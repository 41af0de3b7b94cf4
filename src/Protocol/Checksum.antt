-- ===== src/Protocol/Checksum.antt =====
-- src/protocol/framing.cc, Checksum32: FNV-1a over the bytes, in 32 bits.
use flume_ascend_host_bypass.Prelude.{ℕ, ◌*◌, ◌%◌, ◌^◌, ◌<◌, List, [], ◌∷◌, bit_xor, arith}

checksum32_loop : ℕ → List ℕ → ℕ
checksum32_loop hash [] = hash
checksum32_loop hash (b ∷ bytes) = checksum32_loop (bit_xor hash b * 16777619 % 2 ^ 32) bytes

unfoldable pub checksum32 : List ℕ → ℕ
unfolding checksum32_loop
checksum32 bytes = checksum32_loop 2166136261 bytes

checksum32_loop-lt :
    (hash : ℕ) (bytes : List ℕ) → hash < 2 ^ 32 → checksum32_loop hash bytes < 2 ^ 32
unfolding checksum32_loop
checksum32_loop-lt hash [] h = h
checksum32_loop-lt hash (b ∷ bytes) h =
    checksum32_loop-lt (bit_xor hash b * 16777619 % 2 ^ 32) bytes (omega arith)

pub checksum32-lt : (bytes : List ℕ) → checksum32 bytes < 2 ^ 32
unfolding checksum32
checksum32-lt bytes = checksum32_loop-lt 2166136261 bytes (omega arith)
