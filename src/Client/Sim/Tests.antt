-- ===== src/Client/Sim/Tests.antt =====
-- The properties of sends, receives and releases, applied to two ranks.
use flume_ascend_host_bypass.Prelude.{
  ◌%◌, ◌^◌, ◌<◌, ◌≢◌, arith, ℕ, ◌≡◌, ◌↔◌, refl, true, [], ◌∷◌, length,
}
use flume_ascend_host_bypass.Prelude.Text.{same_bytes}
use flume_ascend_host_bypass.Client.BufferType
use flume_ascend_host_bypass.Client.DataType
use flume_ascend_host_bypass.Client.Memory.{load}
use flume_ascend_host_bypass.Client.Buffer.{Buffer, validate_range, is_sim_buffer_type}
use flume_ascend_host_bypass.Client.Io.{p2p}
use flume_ascend_host_bypass.Client.Table.{find}
use flume_ascend_host_bypass.Client.Sim.{Client, Store}
use flume_ascend_host_bypass.Client.Sim.P2p.{P2pKey, same_key, Sim, Role, send, recv, Post, post}
use flume_ascend_host_bypass.Client.Sim.P2p.Spec.{Market, spec_post}
use flume_ascend_host_bypass.Client.Sim.P2p.Refine.{image, post-refines}
use flume_ascend_host_bypass.Client.Sim.P2p.Delivery.{
  posts, Agrees, Met, post-send_recv, post-recv_send,
}
use flume_ascend_host_bypass.Client.Sim.P2p.Runs.{Runs, IsSound, Runs-Sound}
use flume_ascend_host_bypass.Client.Sim.Release.{flume_buffer_release, flume_io_release}
use flume_ascend_host_bypass.Client.Sim.Calls.{World, Asked, p2p_key, p2p_seq}
use flume_ascend_host_bypass.Client.Sim.Calls.Order.{calls, Passes, p2p_key-same}
use flume_ascend_host_bypass.Client.Sizes.{checked_bytes, data_type_bytes}

abbrev store0 : Store
store0 = record {
  memory = λ a. a;
  pending_refs = λ h. 0;
  symmetric_refs = λ h. 0;
  live = λ h. true;
  ios = [];
}

abbrev empty : Market
empty = record { offers = []; store = store0 }

abbrev buffer : ℕ → ℕ → Buffer
buffer handle ptr = record {
  handle = handle;
  client = handle;
  ptr = ptr;
  len = 16;
  type = BufferType.sim_hbm;
}

abbrev key : ℕ → P2pKey
key seq = record { comm_name = 99 ∷ []; rank_size = 2; src_rank = 0; dst_rank = 1; seq = seq }

abbrev submission : Role → ℕ → Buffer → Post
submission role seq b = record {
  service = p2p;
  role = role;
  key = key seq;
  buffer = b;
  offset = 2;
  count = 3;
  data_type = DataType.uint8;
  bytes = 3;
}

abbrev giving : Post
giving = submission send 0 (buffer 1 100)

abbrev taking : Post
taking = submission recv 0 (buffer 2 200)

abbrev another : Post
another = submission send 1 (buffer 1 100)

post-refines_example : post giving (image empty) ≡ image (spec_post giving empty)
post-refines_example = post-refines giving empty (tt, tt)

pair : Agrees giving taking
pair = record { key_same = refl; count_same = refl; type_same = refl; bytes_same = refl }

pair_back : Agrees taking giving
pair_back = record { key_same = refl; count_same = refl; type_same = refl; bytes_same = refl }

post-send_recv_example :
    let s = posts (another ∷ []) (post giving (image empty)) in
    Met (key 0) s.store.memory (load (λ a. a) 102 3) 202 0 (length s.store.ios) (post taking s)
unfolding find same_key same_bytes
post-send_recv_example =
    post-send_recv giving taking (another ∷ []) empty (tt, tt) pair (refl, tt) refl refl refl

post-recv_send_example :
    let s = posts (another ∷ []) (post taking (image empty)) in
    Met
      (key 0)
      s.store.memory
      (load s.store.memory 102 3)
      202
      0
      (length s.store.ios)
      (post giving s)
unfolding find same_key same_bytes
post-recv_send_example =
    post-recv_send taking giving (another ∷ []) empty (tt, tt) pair_back (refl, tt) refl refl refl

empty-IsSound : IsSound (λ h. 0) (image empty)
empty-IsSound =
    (empty, refl, record { formed = (tt, tt); counted = λ h. refl; holds = tt; single = tt })

abbrev waiting : Sim
waiting = post taking (image empty)

abbrev kept : Sim
kept = record waiting { store = (flume_buffer_release (buffer 2 200) waiting.store).1 }

Runs-Sound_example : IsSound (λ h. 0) (record kept { store = (flume_io_release 0 kept.store).1 })
Runs-Sound_example =
    Runs-Sound (λ h. 0)
      (Runs.submits taking refl (Runs.releases (buffer 2 200) (Runs.frees 0 Runs.ends)))
      empty-IsSound

abbrev client : ℕ → ℕ → ℕ → Client
client rank sent received = record {
  id = rank;
  sim_comm_attached = true;
  sim_comm_name = 99 ∷ [];
  rank = rank;
  rank_size = 3;
  sim_allreduce_seq = 0;
  sim_allgather_seq = 0;
  sim_p2p_send_seq = sent;
  sim_p2p_recv_seq = received;
  sim_hcomm_payload_send_seq = 0;
  sim_hcomm_payload_recv_seq = 0;
  sim_a3_register_seq = 0;
}

abbrev asked : Role → ℕ → ℕ → World × Asked
asked role rank peer_rank = (
  record { p2ps = []; hcomm_payloads = []; store = store0 },
  record {
    role = role;
    buffer = record { handle = rank; client = rank; ptr = 100; len = 8; type = BufferType.sim_hbm };
    offset = 0;
    count = 4;
    data_type = DataType.uint8;
    peer_rank = peer_rank;
  },
)

asked-Passes :
    (role : Role) (rank peer_rank : ℕ)
    → peer_rank < 3
    → peer_rank ≢ rank
    → Passes (client rank 0 0) (asked role rank peer_rank)
unfolding checked_bytes data_type_bytes validate_range is_sim_buffer_type
asked-Passes role rank peer_rank h n = (
  4,
  record {
    attached = refl;
    peer_known = h;
    peer_other = n;
    sized = refl;
    in_range = refl;
    own = refl;
    simulated = refl;
  },
)

-- Sends to rank 1 and to rank 2; a receive of rank 2, whose next one would meet a third send.
p2p_key-same_example :
    let sender = calls (asked send 0 1 ∷ (asked send 0 2 ∷ [])) (client 0 0 0) in
    let receiver = calls (asked recv 2 0 ∷ []) (client 2 0 0) in
    (same_key
        (p2p_key send sender 2 (p2p_seq send sender))
        (p2p_key recv receiver 0 (p2p_seq recv receiver))
      ≡ true)
    ↔ (((client 0 0 0).sim_comm_name ≡ (client 2 0 0).sim_comm_name)
        × ((client 0 0 0).rank_size ≡ (client 2 0 0).rank_size)
        × (2 % 2 ^ 64 ≡ 1 % 2 ^ 64))
p2p_key-same_example =
    p2p_key-same (client 0 0 0) (client 2 0 0) (asked send 0 1 ∷ (asked send 0 2 ∷ []))
      (asked recv 2 0 ∷ []) refl refl refl refl
      (
        asked-Passes send 0 1 (omega arith) (λ e. absurd (omega (arith, e))),
        (asked-Passes send 0 2 (omega arith) (λ e. absurd (omega (arith, e))), tt),
      )
      (asked-Passes recv 2 0 (omega arith) (λ e. absurd (omega (arith, e))), tt)
