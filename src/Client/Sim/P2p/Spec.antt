-- ===== src/Client/Sim/P2p/Spec.antt =====
-- What the rounds of sends and receives promise: a market of offers. An offer gives bytes or takes
-- them; two opposite offers under one key and on the same terms meet, and any other second offer
-- under a key makes both fail.
use flume_ascend_host_bypass.Prelude.{
  ℕ, ◌+◌, Bool, ◌&&◌, Option, none, some, List, ◌∷◌, length, ◌==◌, if◌then◌else◌,
}
use flume_ascend_host_bypass.Protocol.Checksum.{checksum32}
use flume_ascend_host_bypass.Client.Status
use flume_ascend_host_bypass.Client.Memory.{load, store}
use flume_ascend_host_bypass.Client.Buffer.{Buffer}
use flume_ascend_host_bypass.Client.Io.{
  Io, Detail, silent, parameters_differ, duplicate_send, duplicate_recv, make_io, make_pending_io,
  retain_pending_io, complete_pending_io,
}
use flume_ascend_host_bypass.Client.Table.{find, erase}
use flume_ascend_host_bypass.Client.Sim.{
  Store, retain_pending_buffer, release_pending_buffer, update_io, new_io,
}
use flume_ascend_host_bypass.Client.Sim.P2p.{P2pKey, same_key, Role, send, recv, Post}

pub data Side : Type 0 where
  gives : List ℕ → Side
  takes : Buffer → ℕ → Side

pub record Offer : Type 0 where
  pub count : ℕ
  pub data_type : ℕ
  pub bytes : ℕ
  pub side : Side
  pub io : ℕ

pub record Market : Type 0 where
  pub offers : List (P2pKey × Offer)
  pub store : Store

abbrev pub side_of : Role → Post → Store → Side
side_of send q s = gives (load s.memory (q.buffer.ptr + q.offset) q.bytes)
side_of recv q s = takes q.buffer q.offset

-- A request that an offer holds.
abbrev pub held_io : Io
held_io = retain_pending_io make_pending_io

abbrev pub hold : Side → Store → Store
hold (gives payload) s = s
hold (takes buffer offset) s = retain_pending_buffer buffer s

abbrev pub let_go : Side → Store → Store
let_go (gives payload) s = s
let_go (takes buffer offset) s = release_pending_buffer buffer s

abbrev pub offer_of : Post → ℕ → Side → Offer
offer_of q io side = record {
  count = q.count;
  data_type = q.data_type;
  bytes = q.bytes;
  side = side;
  io = io;
}

unfoldable pub wait_for : Post → Side → Market → Market
wait_for q side m = record {
  offers = (q.key, offer_of q (length m.store.ios) side) ∷ m.offers;
  store = new_io held_io (hold side m.store);
}

unfoldable pub both_fail : Detail → Post → ℕ → Side → Market → Market
both_fail error q io side m = record {
  offers = erase same_key q.key m.offers;
  store =
      new_io (make_io Status.invalid_argument 0 0 error) (
        update_io io (complete_pending_io Status.invalid_argument 0 0 error) (let_go side m.store));
}

unfoldable pub deliver : Post → ℕ → Side → List ℕ → ℕ → Market → Market
deliver q io side payload at m = record {
  offers = erase same_key q.key m.offers;
  store = new_io (make_io Status.ok q.bytes (checksum32 payload) silent) (
      update_io io (complete_pending_io Status.ok q.bytes (checksum32 payload) silent)
        (record (let_go side m.store) { memory = store m.store.memory at payload }));
}

abbrev pub same_terms : Post → Offer → Bool
same_terms q o = (o.count == q.count) && ((o.data_type == q.data_type) && (o.bytes == q.bytes))

abbrev pub trade : Post → ℕ → Side → Side → Market → Market
trade q io (gives payload) (takes dst offset) m =
    deliver q io (gives payload) payload (dst.ptr + offset) m
trade q io (takes dst offset) (gives payload) m =
    deliver q io (takes dst offset) payload (dst.ptr + offset) m
trade q io (gives payload) (gives payload') m =
    both_fail (duplicate_send q.service) q io (gives payload) m
trade q io (takes dst offset) (takes dst' offset') m =
    both_fail (duplicate_recv q.service) q io (takes dst offset) m

abbrev pub answer_offer : Post → Option Offer → Side → Market → Market
answer_offer q none side m = wait_for q side m
answer_offer q (some o) side m =
    if same_terms q o
    then trade q o.io o.side side m
    else both_fail (parameters_differ q.service) q o.io o.side m

unfoldable pub spec_post : Post → Market → Market
spec_post q m = answer_offer q (find same_key q.key m.offers) (side_of q.role q m.store) m
