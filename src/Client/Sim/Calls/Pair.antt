-- ===== src/Client/Sim/Calls/Pair.antt =====
-- Two clients of one communicator: whose calls meet, and what they bring about.
use flume_ascend_host_bypass.Prelude.{
  ℕ, ◌+◌, ◌<◌, ◌≡◌, ◌≢◌, refl, subst, sym, ◌∙◌, true, false, not, ◌||◌, none, some, [], length, leb,
  ◌==◌, ◌!=◌, arith,
}
use flume_ascend_host_bypass.Client.Status
use flume_ascend_host_bypass.Client.Sizes.{checked_bytes}
use flume_ascend_host_bypass.Client.Memory.{load}
use flume_ascend_host_bypass.Client.Buffer.{validate_range, is_sim_buffer_type}
use flume_ascend_host_bypass.Client.Io.{p2p}
use flume_ascend_host_bypass.Client.Table.{find}
use flume_ascend_host_bypass.Client.Sim.{Client}
use flume_ascend_host_bypass.Client.Sim.P2p.{same_key, Pendings, send, recv, Post, post}
use flume_ascend_host_bypass.Client.Sim.P2p.Spec.{Market}
use flume_ascend_host_bypass.Client.Sim.P2p.Refine.{IsMarket, image, published}
use flume_ascend_host_bypass.Client.Sim.P2p.Delivery.{Met, post-send_recv}
use flume_ascend_host_bypass.Client.Sim.Calls.{
  World, Asked, p2p_key, p2p_seq, next_p2p_seq, into_p2ps, asked_post, sized_p2p, submit_sim_p2p,
  checked_p2p, flume_p2p_async,
}

-- A call that passes every check.
pub record IsAccepted (q : Asked) (c : Client) (bytes : ℕ) : Type 0 where
  pub attached : c.sim_comm_attached ≡ true
  pub peer_known : q.peer_rank < c.rank_size
  pub peer_other : q.peer_rank ≢ c.rank
  pub sized : checked_bytes q.count q.data_type ≡ some bytes
  pub in_range : validate_range q.buffer q.offset bytes ≡ true
  pub own : q.buffer.client ≡ c.id
  pub simulated : is_sim_buffer_type q.buffer.type ≡ true

pub flume_p2p_async-IsAccepted :
    (q : Asked) (c : Client) (w : World) {bytes : ℕ}
    → IsAccepted q c bytes
    → flume_p2p_async q c w ≡ record {
      status = Status.ok;
      io = some (length w.store.ios);
      client = next_p2p_seq q.role c;
      world = into_p2ps w (
          post
            (asked_post p2p q (p2p_key q.role c q.peer_rank (p2p_seq q.role c)) bytes)
            (record { pendings = w.p2ps; store = w.store }));
    }
unfolding flume_p2p_async checked_p2p submit_sim_p2p sized_p2p
flume_p2p_async-IsAccepted q c w {bytes} h =
    let own : (q.buffer.client != c.id) ≡ false = ground (arith, h.own) in
    let joined : (not c.sim_comm_attached || (c.rank_size == 0)) ≡ false =
      ground (arith, h.attached, h.peer_known) in
    let known : leb c.rank_size q.peer_rank ≡ false = ground (arith, h.peer_known) in
    let other : (q.peer_rank == c.rank) ≡ false = ground (arith, h.peer_other) in
    rw
      (
        h.sized, checked_p2p, h.in_range, own, h.simulated, submit_sim_p2p, joined, known, other,
        h.sized, sized_p2p, h.in_range, own, h.simulated,
      )
      refl

module _ (a b : Client) (x y : Asked) (m : Market) (others : Pendings) {bytes : ℕ}
    (sends : IsAccepted x a bytes) (receives : IsAccepted y b bytes) (sending : x.role ≡ send)
    (receiving : y.role ≡ recv) (to : x.peer_rank ≡ b.rank) (from : y.peer_rank ≡ a.rank)
    (one_name : a.sim_comm_name ≡ b.sim_comm_name) (one_size : a.rank_size ≡ b.rank_size)
    (in_turn : a.sim_p2p_send_seq ≡ b.sim_p2p_recv_seq) (counts : x.count ≡ y.count)
    (types : x.data_type ≡ y.data_type) (formed : IsMarket m)
    (free : find same_key (p2p_key send a b.rank a.sim_p2p_send_seq) m.offers ≡ none) where
  abbrev world : World
  world = record { p2ps = published m.offers; hcomm_payloads = others; store = m.store }

  put : Post
  put = asked_post p2p x (p2p_key x.role a x.peer_rank (p2p_seq x.role a)) bytes

  get : Post
  get = asked_post p2p y (p2p_key y.role b y.peer_rank (p2p_seq y.role b)) bytes

  put_key :
      p2p_key x.role a x.peer_rank (p2p_seq x.role a) ≡ p2p_key send a b.rank a.sim_p2p_send_seq
  put_key = rw (sending, to) refl

  get_key :
      p2p_key y.role b y.peer_rank (p2p_seq y.role b) ≡ p2p_key send a b.rank a.sim_p2p_send_seq
  unfolding p2p_key
  get_key = rw (receiving, from, one_name, one_size, in_turn) refl

  met :
      let s = post put (image m) in
      Met get.key s.store.memory
        (load m.store.memory (x.buffer.ptr + x.offset) bytes)
        (y.buffer.ptr + y.offset)
        (length m.store.ios)
        (length s.store.ios)
        (post get s)
  unfolding put get asked_post
  met =
      post-send_recv put get [] m formed
        (record {
          key_same = put_key ∙ sym get_key;
          count_same = counts;
          type_same = types;
          bytes_same = refl;
        })
        tt (subst (λ k. find same_key k m.offers ≡ none) (sym put_key) free) sending receiving

  pub flume_p2p_async-send_recv :
      let w1 = (flume_p2p_async x a world).world in
      let w2 = (flume_p2p_async y b w1).world in
      Met
        (p2p_key send a b.rank a.sim_p2p_send_seq)
        w1.store.memory
        (load m.store.memory (x.buffer.ptr + x.offset) bytes)
        (y.buffer.ptr + y.offset)
        (length m.store.ios)
        (length w1.store.ios)
        (record { pendings = w2.p2ps; store = w2.store })
  unfolding put get asked_post
  flume_p2p_async-send_recv = rw (flume_p2p_async-IsAccepted x a world sends) (
      rw (flume_p2p_async-IsAccepted y b (into_p2ps world (post put (image m))) receives) (
        subst
          (λ k.
            Met k (post put (image m)).store.memory
              (load m.store.memory (x.buffer.ptr + x.offset) bytes) (y.buffer.ptr + y.offset)
              (length m.store.ios) (length (post put (image m)).store.ios)
              (post get (post put (image m))))
          get_key met))
