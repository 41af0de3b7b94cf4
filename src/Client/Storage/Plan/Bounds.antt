-- ===== src/Client/Storage/Plan/Bounds.antt =====
-- What a plan that is created keeps to.
use flume_ascend_host_bypass.Prelude.{
  ℕ, ◌+◌, ◌≤◌, ◌<◌, ◌≡◌, ◌≢◌, ◌⊎◌, true, false, Option, none, some, length,
}
use flume_ascend_host_bypass.Client.Status
use flume_ascend_host_bypass.Client.Buffer.{Buffer}
use flume_ascend_host_bypass.Client.Sim.{Client}
use flume_ascend_host_bypass.Client.Storage.{Block, Window}
use flume_ascend_host_bypass.Client.Storage.Plan.{
  Options, Plan, bytes, Planned, rejected, planned, sim_direct, host_staging, source_send,
  target_recv, role_host_staging,
}

-- The window lies around the bytes.
abbrev pub Around : Option Window → ℕ → ℕ → Type 0
Around none dst_offset n = ⊥
Around (some w) dst_offset n = (w.offset ≤ dst_offset) × (dst_offset + n ≤ w.offset + w.len)

-- The bytes of a role, inside what the role reads and writes.
abbrev pub Inside : Options → ℕ → ℕ → Option Block → Option Buffer → ℕ → ℕ → Type 0
Inside o path role (some block) none dst_offset n =
    (role ≡ source_send) × (1 ≤ n) × (n ≤ length block.payload)
Inside o path role none (some dst) dst_offset n =
    (role ≡ target_recv)
    × (1 ≤ n)
    × (dst_offset + n ≤ dst.len)
    × ((path ≢ sim_direct) ⊎ Around o.target_window dst_offset n)
Inside o path role (some block) (some dst) dst_offset n =
    (role ≡ role_host_staging) × (1 ≤ n) × (n ≤ length block.payload) × (dst_offset + n ≤ dst.len)
Inside o path role none none dst_offset n = ⊥

-- What a plan keeps to, on the client and the options that it is made for.
pub record IsPlan (c : Client) (o : Options) (p : Plan) : Type 0 where
  pub inside : Inside o p.path p.role p.block p.dst p.dst_offset p.bytes
  pub paired :
      (p.path ≢ sim_direct)
      ⊎ ((c.sim_comm_attached ≡ true)
          × (c.rank_size ≡ 2)
          × (p.peer_rank < 2)
          × (p.peer_rank ≢ c.rank))
  pub strict : (o.require_direct ≡ false) ⊎ (p.path ≡ sim_direct)
  pub unstaged : (o.allow_host_staging ≡ true) ⊎ (p.path ≢ host_staging)

plan_or : Plan → Planned → Plan
plan_or p (rejected status) = p
plan_or p (planned q) = q
