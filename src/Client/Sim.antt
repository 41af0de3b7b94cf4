-- ===== src/Client/Sim.antt =====
-- src/core/client.cc: a client of a simulated communicator, and what all clients of the process
-- share: the memory, the counts of references to buffers, and the requests. Buffers and requests
-- are known by handles; a request's handle is its place in the list of all. `live` and `deleted` say
-- what has not been deleted and what has.
mod Tests
pub mod Laws
pub mod P2p
pub mod Release
pub mod Calls
pub mod Reduce
pub mod Collective
pub mod Registration
use flume_ascend_host_bypass.Prelude.{
  ℕ, zero, suc, ◌+◌, ◌-◌, Bool, true, false, not, ◌&&◌, ◌||◌, Option, none, some, List, [], ◌∷◌,
  ◌++◌, length, leb, ltb, ◌==◌, if◌then◌else◌,
}
use flume_ascend_host_bypass.Client.Status
use flume_ascend_host_bypass.Client.BufferType
use flume_ascend_host_bypass.Client.Memory.{Memory}
use flume_ascend_host_bypass.Client.Buffer.{Buffer, is_sim_buffer_type, is_registerable_buffer_type}
use flume_ascend_host_bypass.Client.Io.{Io}

pub record Client : Type 0 where
  pub id : ℕ
  pub sim_comm_attached : Bool
  pub sim_comm_name : List ℕ
  pub rank : ℕ
  pub rank_size : ℕ
  pub sim_allreduce_seq : ℕ
  pub sim_allgather_seq : ℕ
  pub sim_p2p_send_seq : ℕ
  pub sim_p2p_recv_seq : ℕ
  pub sim_hcomm_payload_send_seq : ℕ
  pub sim_hcomm_payload_recv_seq : ℕ
  pub sim_a3_register_seq : ℕ

unfoldable pub flume_attach_sim_comm : List ℕ → ℕ → ℕ → Client → ℕ × Client
flume_attach_sim_comm comm_name rank rank_size c =
    if (length comm_name == 0) || ((rank_size == 0) || leb rank_size rank)
    then (Status.invalid_argument, c)
    else (
      Status.ok,
      record {
        id = c.id;
        sim_comm_attached = true;
        sim_comm_name = comm_name;
        rank = rank;
        rank_size = rank_size;
        sim_allreduce_seq = 0;
        sim_allgather_seq = 0;
        sim_p2p_send_seq = 0;
        sim_p2p_recv_seq = 0;
        sim_hcomm_payload_send_seq = 0;
        sim_hcomm_payload_recv_seq = 0;
        sim_a3_register_seq = 0;
      },
    )

pub record Store : Type 0 where
  pub memory : Memory
  pub pending_refs : ℕ → ℕ
  pub symmetric_refs : ℕ → ℕ
  pub live : ℕ → Bool
  pub ios : List Io

-- One count of many.
unfoldable pub set_at : ℕ → ℕ → (ℕ → ℕ) → ℕ → ℕ
set_at k n counts h = if h == k then n else counts h

unfoldable pub update_at : ℕ → (Io → Io) → List Io → List Io
update_at i f [] = []
update_at zero f (io ∷ ios) = f io ∷ ios
update_at (suc i) f (io ∷ ios) = io ∷ update_at i f ios

unfoldable pub retain_pending_buffer : Buffer → Store → Store
unfolding set_at
retain_pending_buffer b s = record s {
  pending_refs = set_at b.handle (s.pending_refs b.handle + 1) s.pending_refs;
}

-- The count is 1 at least where the source calls this.
unfoldable pub release_pending_buffer : Buffer → Store → Store
unfolding set_at
release_pending_buffer b s = record s {
  pending_refs = set_at b.handle (s.pending_refs b.handle - 1) s.pending_refs;
}

unfoldable pub update_io : ℕ → (Io → Io) → Store → Store
unfolding update_at
update_io i f s = record s { ios = update_at i f s.ios }

unfoldable pub new_io : Io → Store → Store
new_io io s = record s { ios = s.ios ++ (io ∷ []) }
