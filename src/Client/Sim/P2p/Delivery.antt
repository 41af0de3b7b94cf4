-- ===== src/Client/Sim/P2p/Delivery.antt =====
-- A send and a receive that meet, with any submissions for other keys in between.
use flume_ascend_host_bypass.Prelude.{
  ℕ, ◌+◌, ◌≤◌, ◌<◌, ◌≡◌, refl, subst, ap, sym, ◌∙◌, true, false, none, some, List, [], ◌∷◌, length,
  ◌++◌, get_elem?, All, arith,
}
use flume_ascend_host_bypass.Protocol.Checksum.{checksum32}
use flume_ascend_host_bypass.Client.Status
use flume_ascend_host_bypass.Client.Memory.{Memory, load, store, length-load}
use flume_ascend_host_bypass.Client.Io.{Io, silent, make_io, complete_pending_io}
use flume_ascend_host_bypass.Client.Table.{find, erase, find-erase_self}
use flume_ascend_host_bypass.Client.Sim.{update_at, update_io, release_pending_buffer, new_io}
use flume_ascend_host_bypass.Client.Sim.Laws.{
  get_elem?-update_at, get_elem?-lt, get_elem?-old, get_elem?-new, length-update_at,
}
use flume_ascend_host_bypass.Client.Sim.P2p.{P2pKey, same_key, Sim, send, recv, Post, post}
use flume_ascend_host_bypass.Client.Sim.P2p.Keys.{same_key→eq, same_key_refl}
use flume_ascend_host_bypass.Client.Sim.P2p.Refine.{
  IsMarket, image, published, find_lem, post-refines,
}
use flume_ascend_host_bypass.Client.Sim.P2p.Market.{
  spec_post-IsMarket, find-spec_post_ne, length-spec_post,
}
use flume_ascend_host_bypass.Client.Sim.P2p.Spec.{
  Side, gives, takes, Offer, Market, side_of, offer_of, wait_for, deliver, trade, spec_post,
}

-- Submissions one after the other.
abbrev pub posts : List Post → Sim → Sim
posts [] s = s
posts (q ∷ qs) s = posts qs (post q s)

abbrev spec_posts : List Post → Market → Market
spec_posts [] m = m
spec_posts (q ∷ qs) m = spec_posts qs (spec_post q m)

posts-refines :
    (qs : List Post) (m : Market)
    → IsMarket m
    → (posts qs (image m) ≡ image (spec_posts qs m)) × IsMarket (spec_posts qs m)
posts-refines [] m v = (refl, v)
posts-refines (q ∷ qs) m v =
    let (e, w) = posts-refines qs (spec_post q m) (spec_post-IsMarket q m v) in
    (ap (posts qs) (post-refines q m v) ∙ e, w)

-- An offer stands while the submissions are for other keys.
abbrev pub Others : P2pKey → List Post → Type 0
Others k qs = All (λ q. same_key q.key k ≡ false) qs

find-posts :
    (k : P2pKey) (qs : List Post) (m : Market)
    → Others k qs
    → find same_key k (spec_posts qs m).offers ≡ find same_key k m.offers
find-posts k [] m h = refl
find-posts k (q ∷ qs) m h = find-posts k qs (spec_post q m) h.1 ∙ find-spec_post_ne q k m h.0

-- A first submission makes its offer.
find-first :
    (q : Post) (m : Market)
    → find same_key q.key m.offers ≡ none
    → find same_key q.key (spec_post q m).offers
      ≡ some (offer_of q (length m.store.ios) (side_of q.role q m.store))
unfolding spec_post wait_for find
find-first q m e = rw (e, same_key_refl q.key)

-- On the terms of both submissions.
pub record Agrees (a b : Post) : Type 0 where
  pub key_same : a.key ≡ b.key
  pub count_same : a.count ≡ b.count
  pub type_same : a.data_type ≡ b.data_type
  pub bytes_same : a.bytes ≡ b.bytes

spec_post-second :
    (a b : Post) (io : ℕ) (side : Side) (m : Market)
    → Agrees a b
    → find same_key a.key m.offers ≡ some (offer_of a io side)
    → spec_post b m ≡ trade b io side (side_of b.role b m.store) m
unfolding spec_post
spec_post-second a b io side m g e =
    rw (subst (λ k. find same_key k m.offers ≡ some (offer_of a io side)) g.key_same e)
      (rw (g.count_same, g.type_same, g.bytes_same) (ground arith))

length-posts :
    (qs : List Post) (m : Market) → length m.store.ios ≤ length (spec_posts qs m).store.ios
length-posts [] m = omega arith
length-posts (q ∷ qs) m = omega (arith, length-posts qs (spec_post q m), length-spec_post q m)

-- A request that is done well, with as many bytes as were given and their checksum.
pub record IsDone (given : List ℕ) (io : Io) : Type 0 where
  pub done : io.done ≡ true
  pub status : io.status ≡ Status.ok
  pub bytes : io.bytes ≡ length given
  pub checksum : io.checksum ≡ checksum32 given

-- Both requests are done, the bytes given are stored, and the key is free again.
pub record Met (key : P2pKey) (before : Memory) (given : List ℕ) (at first second : ℕ) (s : Sim)
    : Type 0 where
  pub stored : s.store.memory ≡ store before at given
  pub first_done : (io : Io) × (get_elem? s.store.ios first ≡ some io) × IsDone given io
  pub second_done : (io : Io) × (get_elem? s.store.ios second ≡ some io) × IsDone given io
  pub freed : find same_key key s.pendings ≡ none

find-none :
    (k : P2pKey) (t : List (P2pKey × Offer))
    → find same_key k t ≡ none
    → find same_key k (published t) ≡ none
find-none k t e = find_lem k t ∙ rw (e)

deliver-Met :
    (q : Post) (io : ℕ) (side : Side) (given : List ℕ) (at : ℕ) (m : Market)
    → io < length m.store.ios
    → length given ≡ q.bytes
    → IsMarket m
    → Met q.key m.store.memory given at io
        (length m.store.ios)
        (image (deliver q io side given at m))
unfolding deliver new_io update_io release_pending_buffer make_io complete_pending_io
deliver-Met q io side given at m h n v = go side
  where
    ended : Io → Io
    ended = complete_pending_io Status.ok q.bytes (checksum32 given) silent

    done :
        (o : Io)
        → o.done ≡ true
        → o.status ≡ Status.ok
        → o.bytes ≡ q.bytes
        → o.checksum ≡ checksum32 given
        → IsDone given o
    done o a b c d = record { done = a; status = b; bytes = c ∙ sym n; checksum = d }

    older :
        (x : Io) × (get_elem?
            (update_at io ended m.store.ios
              ++ (make_io Status.ok q.bytes (checksum32 given) silent ∷ []))
            io
          ≡ some x)
        × IsDone given x
    older =
        let (x, e) = get_elem?-lt m.store.ios io h in
        (
          ended x,
          get_elem?-old (update_at io ended m.store.ios) io _
                (omega (arith, h, length-update_at io ended m.store.ios))
              ∙ get_elem?-update_at io ended m.store.ios x e,
          done (ended x) refl refl refl refl,
        )

    newest :
        (x : Io) × (get_elem?
            (update_at io ended m.store.ios
              ++ (make_io Status.ok q.bytes (checksum32 given) silent ∷ []))
            (length m.store.ios)
          ≡ some x)
        × IsDone given x
    newest = (
      make_io Status.ok q.bytes (checksum32 given) silent,
      ap (get_elem? _) (sym (length-update_at io ended m.store.ios))
          ∙ get_elem?-new (update_at io ended m.store.ios) _,
      done _ refl refl refl refl,
    )

    free : find same_key q.key (published (erase same_key q.key m.offers)) ≡ none
    free =
        find-none q.key (erase same_key q.key m.offers)
          (find-erase_self same_key same_key→eq q.key m.offers v.0)

    go :
        (side : Side)
        → Met q.key m.store.memory given at io
            (length m.store.ios)
            (image (deliver q io side given at m))
    go (gives payload) = record {
      stored = refl;
      first_done = older;
      second_done = newest;
      freed = free;
    }
    go (takes dst offset) = record {
      stored = refl;
      first_done = older;
      second_done = newest;
      freed = free;
    }

module _ (a b : Post) (between : List Post) (m : Market) (v : IsMarket m) (agree : Agrees a b)
    (others : Others a.key between) (free : find same_key a.key m.offers ≡ none) where
  abbrev last : Market
  last = spec_posts (a ∷ between) m

  -- The second submission meets the offer of the first.
  meets :
      (side mine : Side)
      → side_of a.role a m.store ≡ side
      → side_of b.role b last.store ≡ mine
      → (post b (image last) ≡ image (trade b (length m.store.ios) side mine last))
        × (length m.store.ios < length last.store.ios)
        × IsMarket last
  meets side mine s t =
      let (e, w) = posts-refines (a ∷ between) m v in
      let stands : find same_key a.key last.offers ≡ some (offer_of a (length m.store.ios) side) =
        find-posts a.key between (spec_post a m) others
        ∙ find-first a m free
        ∙ ap (λ x. some (offer_of a (length m.store.ios) x)) s in
      (
        post-refines b last w
            ∙ ap image (
                spec_post-second a b (length m.store.ios) side last agree stands
                ∙ ap (λ x. trade b (length m.store.ios) side x last) t),
        omega (arith, length-spec_post a m, length-posts between (spec_post a m)),
        w,
      )

  -- A send under a free key, then any submissions for other keys, then a receive under that key
  -- with the same count, type and size: the receive stores at its buffer the bytes that the
  -- sender's buffer held when the send was submitted, whatever has been stored since, changes no
  -- other byte, completes both requests with FLUME_OK, that size and the checksum of those bytes,
  -- and frees the key. The market at the start is well formed.
  pub post-send_recv :
      a.role ≡ send
      → b.role ≡ recv
      → let s = posts between (post a (image m)) in
        Met b.key s.store.memory
          (load m.store.memory (a.buffer.ptr + a.offset) a.bytes)
          (b.buffer.ptr + b.offset)
          (length m.store.ios)
          (length s.store.ios)
          (post b s)
  post-send_recv ra rb =
      let given = load m.store.memory (a.buffer.ptr + a.offset) a.bytes in
      let (e, lt, w) =
        meets (gives given) (takes b.buffer b.offset) (ap (λ r. side_of r a m.store) ra)
          (ap (λ r. side_of r b last.store) rb) in
      subst
        (λ s.
          Met b.key s.store.memory given (b.buffer.ptr + b.offset) (length m.store.ios)
            (length s.store.ios) (post b s))
        (sym (posts-refines (a ∷ between) m v).0)
        (subst
          (Met b.key last.store.memory given (b.buffer.ptr + b.offset) (length m.store.ios)
            (length last.store.ios))
          (sym e)
          (deliver-Met b (length m.store.ios) (gives given) given (b.buffer.ptr + b.offset) last lt
            (length-load m.store.memory (a.buffer.ptr + a.offset) a.bytes ∙ agree.bytes_same) w))

  -- A receive under a free key, then any submissions for other keys, then a send under that key
  -- with the same count, type and size: the send stores at the receiver's buffer the bytes that its
  -- own holds, changes no other byte, completes both requests with FLUME_OK, that size and the
  -- checksum of those bytes, and frees the key. The market at the start is well formed.
  pub post-recv_send :
      a.role ≡ recv
      → b.role ≡ send
      → let s = posts between (post a (image m)) in
        Met b.key s.store.memory
          (load s.store.memory (b.buffer.ptr + b.offset) b.bytes)
          (a.buffer.ptr + a.offset)
          (length m.store.ios)
          (length s.store.ios)
          (post b s)
  post-recv_send ra rb =
      let given = load last.store.memory (b.buffer.ptr + b.offset) b.bytes in
      let (e, lt, w) =
        meets (takes a.buffer a.offset) (gives given) (ap (λ r. side_of r a m.store) ra)
          (ap (λ r. side_of r b last.store) rb) in
      subst
        (λ s.
          Met b.key s.store.memory (load s.store.memory (b.buffer.ptr + b.offset) b.bytes)
            (a.buffer.ptr + a.offset) (length m.store.ios) (length s.store.ios) (post b s))
        (sym (posts-refines (a ∷ between) m v).0)
        (subst
          (Met b.key last.store.memory given (a.buffer.ptr + a.offset) (length m.store.ios)
            (length last.store.ios))
          (sym e)
          (deliver-Met b (length m.store.ios) (takes a.buffer a.offset) given
            (a.buffer.ptr + a.offset) last lt
            (length-load last.store.memory (b.buffer.ptr + b.offset) b.bytes) w))
