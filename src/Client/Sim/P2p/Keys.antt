-- ===== src/Client/Sim/P2p/Keys.antt =====
-- The test on keys is equality.
use flume_ascend_host_bypass.Prelude.{◌≡◌, true, arith}
use flume_ascend_host_bypass.Prelude.Text.{same_bytes, same_bytes→eq, same_bytes_refl}
use flume_ascend_host_bypass.Client.Sim.P2p.{P2pKey, same_key}

pub same_key_refl : (k : P2pKey) → same_key k k ≡ true
unfolding same_key
same_key_refl k = ground (arith, same_bytes_refl k.comm_name)

fields :
    (a b : P2pKey)
    → same_key a b ≡ true
    → (same_bytes a.comm_name b.comm_name ≡ true)
      × (a.rank_size ≡ b.rank_size)
      × (a.src_rank ≡ b.src_rank)
      × (a.dst_rank ≡ b.dst_rank)
      × (a.seq ≡ b.seq)
unfolding same_key
fields a b h = ground (arith, h)

pub same_key→eq : (a b : P2pKey) → same_key a b ≡ true → a ≡ b
same_key→eq a b h =
    let (n, s, f, t, q) = fields a b h in
    λ i. record {
      comm_name = same_bytes→eq a.comm_name b.comm_name n i;
      rank_size = s i;
      src_rank = f i;
      dst_rank = t i;
      seq = q i;
    }
