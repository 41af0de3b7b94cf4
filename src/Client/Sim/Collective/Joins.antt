-- ===== src/Client/Sim/Collective/Joins.antt =====
-- A rank joins a collective: what its submission does when it is on the same terms.
use flume_ascend_host_bypass.Prelude.{
  suc, ◌+◌, ◌<◌, ◌≡◌, refl, true, false, [], ◌∷◌, ◌++◌, length, leb, arith, length-append,
}
use flume_ascend_host_bypass.Client.Memory.{load}
use flume_ascend_host_bypass.Client.Io.{make_pending_io, retain_pending_io}
use flume_ascend_host_bypass.Client.Table.{find}
use flume_ascend_host_bypass.Client.Sim.{Store, retain_pending_buffer, update_io, new_io}
use flume_ascend_host_bypass.Client.Sim.Laws.{length-update_at}
use flume_ascend_host_bypass.Client.Sim.Reduce.{Machine}
use flume_ascend_host_bypass.Client.Sim.Collective.{
  CollectiveKey, same_collective, Arrival, Pending, Share, pending_matches, Collectives, finish,
  arrive, has_arrived, enter, pending_or, share,
}
use flume_ascend_host_bypass.Client.Sim.Collective.Keys.{same_kind_refl}

-- A submission on the terms of a collective, by a rank of it.
pub record Joins (p : Pending) (key : CollectiveKey) (q : Share) : Type 0 where
  pub key_same : q.key ≡ key
  pub kind_same : p.kind ≡ key.kind
  pub size_same : p.rank_size ≡ key.rank_size
  pub count_same : p.count ≡ q.count
  pub type_same : p.data_type ≡ q.data_type
  pub op_same : p.reduce_op ≡ q.reduce_op
  pub input_same : p.input_bytes ≡ q.input_bytes
  pub output_same : p.output_bytes ≡ q.output_bytes
  pub rank_known : q.rank < p.rank_size

pub matches_joined :
    (p : Pending) (key : CollectiveKey) (q : Share) → Joins p key q → pending_matches p q ≡ true
unfolding pending_matches
matches_joined p key q j =
    rw (j.key_same, j.kind_same, same_kind_refl key.kind)
      (ground (arith, j.count_same, j.type_same, j.op_same, j.input_same, j.output_same))

-- The store while a rank waits.
unfoldable pub waiting_store : Share → Store → Store
waiting_store q s =
    update_io (length s.ios) retain_pending_io
      (retain_pending_buffer q.dst (new_io make_pending_io s))

pub waiting_memory : (q : Share) (s : Store) → (waiting_store q s).memory ≡ s.memory
unfolding waiting_store update_io retain_pending_buffer new_io
waiting_memory q s = refl

pub waiting_length : (q : Share) (s : Store) → length (waiting_store q s).ios ≡ suc (length s.ios)
unfolding waiting_store update_io retain_pending_buffer new_io
waiting_length q s = omega (
  arith,
  length-update_at (length s.ios) retain_pending_io (s.ios ++ (make_pending_io ∷ [])),
  length-append s.ios (make_pending_io ∷ []),
)

abbrev pub arrival_of : Share → Store → Arrival
arrival_of q s = record {
  payload = load s.memory (q.src.ptr + q.src_offset) q.input_bytes;
  dst = q.dst;
  dst_offset = q.dst_offset;
  io = length s.ios;
}

unfoldable pub arrived_with : Share → Store → Pending → Pending
arrived_with q s p =
    arrive q (load s.memory (q.src.ptr + q.src_offset) q.input_bytes) (length s.ios) p

-- A submission that joins is entered.
pub share-Joins :
    (machine : Machine) (q : Share) (key : CollectiveKey) (p : Pending) (s : Collectives)
    → pending_or (find same_collective q.key s.pendings) q ≡ p
    → Joins p key q
    → has_arrived p.arrived q.rank ≡ false
    → share machine q s
      ≡ finish machine q (arrived_with q s.store p) (record s { store = waiting_store q s.store })
unfolding share enter arrived_with waiting_store
share-Joins machine q key p s e j n =
    let known : leb p.rank_size q.rank ≡ false = ground (arith, j.rank_known) in
    rw (e, matches_joined p key q j, known, n) refl
