-- ===== src/Client/Sim/Collective/Keys.antt =====
-- The test on the keys of collectives is equality.
use flume_ascend_host_bypass.Prelude.{◌≡◌, refl, true, arith}
use flume_ascend_host_bypass.Prelude.Text.{same_bytes, same_bytes→eq, same_bytes_refl}
use flume_ascend_host_bypass.Client.Sim.Collective.{
  Kind, all_reduce, all_gather, CollectiveKey, same_kind, same_collective,
}

pub same_kind_refl : (k : Kind) → same_kind k k ≡ true
unfolding same_kind
same_kind_refl all_reduce = refl
same_kind_refl all_gather = refl

same_kind→eq : (k l : Kind) → same_kind k l ≡ true → k ≡ l
unfolding same_kind
same_kind→eq all_reduce all_reduce h = refl
same_kind→eq all_reduce all_gather h = cc
same_kind→eq all_gather all_reduce h = cc
same_kind→eq all_gather all_gather h = refl

pub same_collective_refl : (k : CollectiveKey) → same_collective k k ≡ true
unfolding same_collective
same_collective_refl k = ground (arith, same_bytes_refl k.comm_name, same_kind_refl k.kind)

fields :
    (a b : CollectiveKey)
    → same_collective a b ≡ true
    → (same_bytes a.comm_name b.comm_name ≡ true)
      × (a.rank_size ≡ b.rank_size)
      × (a.seq ≡ b.seq)
      × (same_kind a.kind b.kind ≡ true)
unfolding same_collective
fields a b h = ground (arith, h)

pub same_collective→eq : (a b : CollectiveKey) → same_collective a b ≡ true → a ≡ b
same_collective→eq a b h =
    let (n, s, q, k) = fields a b h in
    λ i. record {
      comm_name = same_bytes→eq a.comm_name b.comm_name n i;
      rank_size = s i;
      seq = q i;
      kind = same_kind→eq a.kind b.kind k i;
    }
