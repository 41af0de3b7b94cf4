-- ===== src/Client/Sim/Registration.antt =====
-- src/core/client.cc: the registration of symmetric memory by all ranks of a simulated communicator.
use flume_ascend_host_bypass.Prelude.{
  ℕ, zero, suc, ◌+◌, ◌-◌, ◌%◌, ◌^◌, ◌≡◌, Bool, true, false, not, ◌&&◌, ◌||◌, Option, none, some,
  List, [], ◌∷◌, replicate, leb, ltb, ◌==◌, ◌!=◌, if◌then◌else◌, arith,
}
use flume_ascend_host_bypass.Prelude.Text.{same_bytes}
use flume_ascend_host_bypass.Client.Status
use flume_ascend_host_bypass.Client.Buffer.{
  Buffer, validate_range, is_sim_buffer_type, is_collective_buffer_type,
}
use flume_ascend_host_bypass.Client.Table.{find, erase}
use flume_ascend_host_bypass.Client.Sim.{Client, Store, set_at}
use flume_ascend_host_bypass.Client.Sim.Release.{flume_buffer_release}

pub record Key : Type 0 where
  pub comm_name : List ℕ
  pub rank_size : ℕ
  pub seq : ℕ

-- Neither key is less than the other.
unfoldable pub same_registration : Key → Key → Bool
same_registration a b =
    same_bytes a.comm_name b.comm_name && ((a.rank_size == b.rank_size) && (a.seq == b.seq))

pub record Pending : Type 0 where
  pub rank_size : ℕ
  pub offset : ℕ
  pub len : ℕ
  pub arrivals : ℕ
  pub arrived : List Bool

abbrev pub Pendings : Type 0
Pendings = List (Key × Pending)

-- A rank beyond the ranks counts as arrived: the source asks for the bound first.
abbrev pub is_arrived : List Bool → ℕ → Bool
is_arrived [] rank = true
is_arrived (b ∷ bs) zero = b
is_arrived (b ∷ bs) (suc rank) = is_arrived bs rank

abbrev pub set_rank : List Bool → ℕ → List Bool
set_rank [] rank = []
set_rank (b ∷ bs) zero = true ∷ bs
set_rank (b ∷ bs) (suc rank) = b ∷ set_rank bs rank

abbrev pub pending_or : Option Pending → ℕ → ℕ → ℕ → Pending
pending_or (some p) rank_size offset len = p
pending_or none rank_size offset len = record {
  rank_size = rank_size;
  offset = offset;
  len = len;
  arrivals = 0;
  arrived = replicate rank_size false;
}

entered : Key → ℕ → ℕ → ℕ → Pending → Pendings → ℕ × Pendings
entered key rank offset len p map =
    if leb p.rank_size rank
      || (is_arrived p.arrived rank || ((p.offset != offset) || (p.len != len)))
    then (Status.invalid_argument, erase same_registration key map)
    else if p.arrivals + 1 == p.rank_size
    then (Status.ok, erase same_registration key map)
    else (
      Status.ok,
      (key, record p { arrivals = p.arrivals + 1; arrived = set_rank p.arrived rank })
          ∷ erase same_registration key map,
    )

unfoldable pub submit_sim_a3_registration : Key → ℕ → ℕ → ℕ → Pendings → ℕ × Pendings
unfolding entered
submit_sim_a3_registration key rank offset len map =
    entered key rank offset len
      (pending_or (find same_registration key map) key.rank_size offset len) map

pub record SymmetricWindow : Type 0 where
  pub client : ℕ
  pub buffer : Buffer
  pub offset : ℕ
  pub len : ℕ
  pub sim : Bool

pub record Registered : Type 0 where
  pub status : ℕ
  pub window : Option SymmetricWindow
  pub client : Client
  pub pendings : Pendings
  pub store : Store

not_registered : ℕ → Client → Pendings → Store → Registered
not_registered status c map s = record {
  status = status;
  window = none;
  client = c;
  pendings = map;
  store = s;
}

by_status : Client → Buffer → ℕ → ℕ → ℕ × Pendings → Store → Registered
unfolding not_registered set_at
by_status c buffer offset len (status, map) s =
    if status != Status.ok then not_registered status c map s else record {
      status = Status.ok;
      window =
          some (record { client = c.id; buffer = buffer; offset = offset; len = len; sim = true });
      client = c;
      pendings = map;
      store = record s {
        symmetric_refs = set_at buffer.handle (s.symmetric_refs buffer.handle + 1) s.symmetric_refs;
      };
    }

-- Buffers of the device have no such windows in the build without HCCL.
unfoldable pub flume_a3_register_symmetric_memory :
    Client → Buffer → ℕ → ℕ → Pendings → Store → Registered
unfolding not_registered by_status
flume_a3_register_symmetric_memory c buffer offset len map s =
    if len == 0
    then not_registered Status.invalid_argument c map s
    else if (buffer.client != c.id)
        || (not (validate_range buffer offset len) || not (is_collective_buffer_type buffer.type))
    then not_registered Status.invalid_argument c map s
    else if not (is_sim_buffer_type buffer.type)
    then not_registered Status.unsupported c map s
    else if not c.sim_comm_attached || (c.rank_size == 0)
    then not_registered Status.unsupported c map s
    else by_status (record c { sim_a3_register_seq = (c.sim_a3_register_seq + 1) % 2 ^ 64 }) buffer
        offset len
        (submit_sim_a3_registration
          (record {
            comm_name = c.sim_comm_name;
            rank_size = c.rank_size;
            seq = c.sim_a3_register_seq;
          })
          c.rank offset len map)
        s

unfoldable pub flume_a3_deregister_symmetric_memory : SymmetricWindow → Store → ℕ × Store
unfolding set_at
flume_a3_deregister_symmetric_memory w s =
    let refs = s.symmetric_refs w.buffer.handle in
    if not w.sim
    then (Status.unsupported, s)
    else if ltb 0 refs
    then (
      Status.ok,
      record s { symmetric_refs = set_at w.buffer.handle (refs - 1) s.symmetric_refs },
    )
    else (Status.ok, s)

by_status-release :
    (c : Client) (buffer : Buffer) (offset len : ℕ) (r : ℕ × Pendings) (s : Store)
    → (by_status c buffer offset len r s).status ≡ Status.ok
    → (flume_buffer_release buffer (by_status c buffer offset len r s).store).0
      ≡ Status.invalid_argument
unfolding by_status flume_buffer_release set_at not_registered
by_status-release c buffer offset len (status, map) s e = ground (arith, e)

-- While a window stands, its buffer is not released.
flume_a3_register_symmetric_memory-release :
    (c : Client) (buffer : Buffer) (offset len : ℕ) (map : Pendings) (s : Store)
    → let r = flume_a3_register_symmetric_memory c buffer offset len map s in
      r.status ≡ Status.ok → (flume_buffer_release buffer r.store).0 ≡ Status.invalid_argument
unfolding flume_a3_register_symmetric_memory not_registered
flume_a3_register_symmetric_memory-release c buffer offset len map s e = ground (
  arith,
  e,
  by_status-release (record c { sim_a3_register_seq = (c.sim_a3_register_seq + 1) % 2 ^ 64 }) buffer
      offset len
      (submit_sim_a3_registration
        (record {
          comm_name = c.sim_comm_name;
          rank_size = c.rank_size;
          seq = c.sim_a3_register_seq;
        })
        c.rank offset len map)
      s,
)
