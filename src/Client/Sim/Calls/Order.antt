-- ===== src/Client/Sim/Calls/Order.antt =====
-- How a client numbers its sends and its receives, and which of them meet.
use flume_ascend_host_bypass.Prelude.{
  ℕ, ◌+◌, ◌%◌, ◌^◌, ◌≡◌, ◌↔◌, ap, ap₂, sym, ◌∙◌, true, List, [], ◌∷◌, All, arith,
}
use flume_ascend_host_bypass.Client.Sim.{Client}
use flume_ascend_host_bypass.Client.Sim.P2p.{P2pKey, same_key, Role, send, recv}
use flume_ascend_host_bypass.Client.Sim.P2p.Keys.{same_key→eq, same_key_refl}
use flume_ascend_host_bypass.Client.Sim.Calls.{
  World, Asked, p2p_key, p2p_seq, next_p2p_seq, flume_p2p_async,
}
use flume_ascend_host_bypass.Client.Sim.Calls.Pair.{IsAccepted, flume_p2p_async-IsAccepted}

-- Calls that a client makes one after the other; others may change the world between them.
abbrev pub calls : List (World × Asked) → Client → Client
calls [] c = c
calls ((w, q) ∷ rest) c = calls rest (flume_p2p_async q c w).client

-- How many of the calls send, and how many receive.
abbrev pub of_role : Role → Role → ℕ
of_role send send = 1
of_role send recv = 0
of_role recv send = 0
of_role recv recv = 1

abbrev pub number_of : Role → List (World × Asked) → ℕ
number_of role [] = 0
number_of role ((w, q) ∷ rest) = of_role role q.role + number_of role rest

abbrev pub Passes : Client → World × Asked → Type 0
Passes c (w, q) = (bytes : ℕ) × IsAccepted q c bytes

-- A client that has moved on with its numbers only.
abbrev numbered : ℕ → ℕ → Client → Client
numbered sent received c = record c {
  sim_p2p_send_seq = sent % 2 ^ 64;
  sim_p2p_recv_seq = received % 2 ^ 64;
}

Passes-numbered :
    (sent received : ℕ) (c : Client) (x : World × Asked)
    → Passes c x
    → Passes (numbered sent received c) x
Passes-numbered sent received c (w, q) (bytes, h) = (
  bytes,
  record {
    attached = h.attached;
    peer_known = h.peer_known;
    peer_other = h.peer_other;
    sized = h.sized;
    in_range = h.in_range;
    own = h.own;
    simulated = h.simulated;
  },
)

next-numbered :
    (role : Role) (sent received : ℕ) (c : Client)
    → next_p2p_seq role (numbered sent received c)
      ≡ numbered (sent + of_role send role) (received + of_role recv role) c
unfolding next_p2p_seq
next-numbered send sent received c =
    ap₂ (λ n m. record c { sim_p2p_send_seq = n; sim_p2p_recv_seq = m }) (omega arith) (omega arith)
next-numbered recv sent received c =
    ap₂ (λ n m. record c { sim_p2p_send_seq = n; sim_p2p_recv_seq = m }) (omega arith) (omega arith)

-- Calls that pass every check count, whatever their peers.
calls-numbered :
    (xs : List (World × Asked)) (sent received : ℕ) (c : Client)
    → All (Passes c) xs
    → calls xs (numbered sent received c)
      ≡ numbered (sent + number_of send xs) (received + number_of recv xs) c
calls-numbered [] sent received c h = ap₂ (λ n m. numbered n m c) (omega arith) (omega arith)
calls-numbered ((w, q) ∷ rest) sent received c h =
    ap (λ r. calls rest r.client)
      (flume_p2p_async-IsAccepted q (numbered sent received c) w
        (Passes-numbered sent received c (w, q) h.0).1)
    ∙ ap (calls rest) (next-numbered q.role sent received c)
    ∙ calls-numbered rest (sent + of_role send q.role) (received + of_role recv q.role) c h.1
    ∙ ap₂ (λ n m. numbered n m c) (omega arith) (omega arith)

-- Let two clients that have made no simulated send or receive each make calls that pass every
-- check, to any peers. Then the next send of the first to the rank of the second, and the next
-- receive of the second from the rank of the first, have the same key exactly when the names and
-- the sizes of their communicators are the same and the first has made as many sends, to all peers
-- together, as the second has made receives, from all peers together, where both are counted modulo
-- 2 ^ 64.
pub p2p_key-same :
    (a b : Client) (xs ys : List (World × Asked))
    → a.sim_p2p_send_seq ≡ 0
    → a.sim_p2p_recv_seq ≡ 0
    → b.sim_p2p_send_seq ≡ 0
    → b.sim_p2p_recv_seq ≡ 0
    → All (Passes a) xs
    → All (Passes b) ys
    → let sender = calls xs a in
      let receiver = calls ys b in
      (same_key
          (p2p_key send sender b.rank (p2p_seq send sender))
          (p2p_key recv receiver a.rank (p2p_seq recv receiver))
        ≡ true)
      ↔ ((a.sim_comm_name ≡ b.sim_comm_name)
          × (a.rank_size ≡ b.rank_size)
          × (number_of send xs % 2 ^ 64 ≡ number_of recv ys % 2 ^ 64))
unfolding p2p_key
p2p_key-same a b xs ys a_sent a_got b_sent b_got ha hb =
    let start_a : a ≡ numbered 0 0 a =
      ap₂ (λ n m. record a { sim_p2p_send_seq = n; sim_p2p_recv_seq = m }) a_sent a_got in
    let start_b : b ≡ numbered 0 0 b =
      ap₂ (λ n m. record b { sim_p2p_send_seq = n; sim_p2p_recv_seq = m }) b_sent b_got in
    let after_a : calls xs a ≡ numbered (number_of send xs) (number_of recv xs) a =
      ap (calls xs) start_a
      ∙ calls-numbered xs 0 0 a ha
      ∙ ap₂ (λ n m. numbered n m a) (omega arith) (omega arith) in
    let after_b : calls ys b ≡ numbered (number_of send ys) (number_of recv ys) b =
      ap (calls ys) start_b
      ∙ calls-numbered ys 0 0 b hb
      ∙ ap₂ (λ n m. numbered n m b) (omega arith) (omega arith) in
    (
      λ h.
          let e = same_key→eq _ _ (
            sym (
              ap₂
                (λ (x y : Client).
                  same_key (p2p_key send x b.rank (p2p_seq send x))
                    (p2p_key recv y a.rank (p2p_seq recv y)))
                after_a after_b)
            ∙ h) in
          (
            ap (λ (k : P2pKey). k.comm_name) e,
            ap (λ (k : P2pKey). k.rank_size) e,
            ap (λ (k : P2pKey). k.seq) e,
          ),
      λ (n, s, q).
          ap₂
            (λ (x y : Client).
              same_key (p2p_key send x b.rank (p2p_seq send x))
                (p2p_key recv y a.rank (p2p_seq recv y)))
            after_a after_b
          ∙ rw (n, s, q) (same_key_refl _),
    )
