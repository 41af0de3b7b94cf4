-- ===== src/Client/Storage/Plan.antt =====
-- src/core/client.cc: plans of a transfer from storage. Paths and roles are the numbers that a
-- caller passes.
pub mod Bounds
use flume_ascend_host_bypass.Prelude.{
  ℕ, ◌+◌, ◌-◌, Bool, true, false, not, ◌&&◌, ◌||◌, Option, none, some, length, ltb, leb, ◌==◌, ◌!=◌,
  if◌then◌else◌,
}
use flume_ascend_host_bypass.Client.Status
use flume_ascend_host_bypass.Client.BufferType
use flume_ascend_host_bypass.Client.Memory.{Memory}
use flume_ascend_host_bypass.Client.Buffer.{Buffer, validate_range}
use flume_ascend_host_bypass.Client.Io.{not_in_build, make_io}
use flume_ascend_host_bypass.Client.Sim.{Client}
use flume_ascend_host_bypass.Client.Storage.{Block, Window, Copied, flume_read_to_hbm_async}

abbrev pub path_auto : ℕ
path_auto = 0

abbrev pub sim_direct : ℕ
sim_direct = 1

abbrev pub host_staging : ℕ
host_staging = 2

abbrev pub role_auto : ℕ
role_auto = 0

abbrev pub source_send : ℕ
source_send = 1

abbrev pub target_recv : ℕ
target_recv = 2

abbrev pub role_host_staging : ℕ
role_host_staging = 3

pub record Options : Type 0 where
  pub path : ℕ
  pub role : ℕ
  pub peer_rank : ℕ
  pub len : ℕ
  pub require_direct : Bool
  pub allow_host_staging : Bool
  pub target_window : Option Window

-- Where the caller passes no options.
abbrev pub default_options : Options
default_options = record {
  path = path_auto;
  role = role_auto;
  peer_rank = 0;
  len = 0;
  require_direct = false;
  allow_host_staging = true;
  target_window = none;
}

pub record Plan : Type 0 where
  pub client : ℕ
  pub block : Option Block
  pub dst : Option Buffer
  pub target_window : Option Window
  pub dst_offset : ℕ
  pub path : ℕ
  pub role : ℕ
  pub peer_rank : ℕ
  pub require_direct : Bool
  pub allow_host_staging : Bool
  pub bytes : ℕ

unfoldable pub chosen_path : Options → Client → ℕ
chosen_path o c =
    if o.path == path_auto
    then (if c.sim_comm_attached || o.require_direct then sim_direct else host_staging)
    else o.path

unfoldable pub chosen_role : Options → ℕ → Option Block → ℕ
chosen_role o path block =
    if o.role == role_auto
    then (if path == host_staging
        then role_host_staging
        else elim block [ some _ ↦ source_send | none ↦ target_recv ])
    else o.role

-- The bytes of a plan, or a status.
pub data Sized : Type 0 where
  refused : ℕ → Sized
  bytes : ℕ → Sized

-- The length that is asked for, or the rest of the block.
abbrev pub or_all : ℕ → ℕ → ℕ
or_all len all = if len == 0 then all else len

unfoldable pub source_bytes : Options → Client → Option Block → Option Buffer → Sized
source_bytes o c none dst = refused Status.invalid_argument
source_bytes o c (some block) (some _) = refused Status.invalid_argument
source_bytes o c (some block) none =
    let n = or_all o.len (length block.payload) in
    if block.client != c.id
    then refused Status.invalid_argument
    else if (n == 0) || ltb (length block.payload) n
    then refused Status.invalid_argument
    else bytes n

-- The window that a direct path wants, around the bytes.
unfoldable pub window_fits : Option Window → Client → Buffer → ℕ → ℕ → Bool
window_fits none c dst dst_offset n = false
window_fits (some w) c dst dst_offset n =
    (w.client == c.id)
    && ((w.buffer.handle == dst.handle)
        && not
            (ltb dst_offset w.offset || (ltb w.len n || ltb (w.len - n) (dst_offset - w.offset))))

unfoldable pub target_bytes : Options → ℕ → Client → Option Block → Option Buffer → ℕ → Sized
target_bytes o path c block none dst_offset = refused Status.invalid_argument
target_bytes o path c (some _) (some dst) dst_offset = refused Status.invalid_argument
target_bytes o path c none (some dst) dst_offset =
    let n = or_all o.len (dst.len - dst_offset) in
    if dst.client != c.id
    then refused Status.invalid_argument
    else if (o.len == 0) && ltb dst.len dst_offset
    then refused Status.invalid_argument
    else if (n == 0) || not (validate_range dst dst_offset n)
    then refused Status.invalid_argument
    else if (path == sim_direct) && not (window_fits o.target_window c dst dst_offset n)
    then refused Status.invalid_argument
    else bytes n

unfoldable pub staging_bytes : Options → Client → Option Block → Option Buffer → ℕ → Sized
staging_bytes o c none dst dst_offset = refused Status.invalid_argument
staging_bytes o c (some block) none dst_offset = refused Status.invalid_argument
staging_bytes o c (some block) (some dst) dst_offset =
    let n = or_all o.len (length block.payload) in
    if (block.client != c.id) || (dst.client != c.id)
    then refused Status.invalid_argument
    else if (n == 0) || (ltb (length block.payload) n || not (validate_range dst dst_offset n))
    then refused Status.invalid_argument
    else bytes n

unfoldable pub role_bytes : Options → ℕ → ℕ → Client → Option Block → Option Buffer → ℕ → Sized
role_bytes o path role c block dst dst_offset =
    if role == source_send
    then source_bytes o c block dst
    else if role == target_recv
    then target_bytes o path c block dst dst_offset
    else if role == role_host_staging
    then staging_bytes o c block dst dst_offset
    else refused Status.invalid_argument

-- What a direct path wants of the client and of the target.
unfoldable pub is_sim_target : ℕ → Option Buffer → Bool
is_sim_target role none = true
is_sim_target role (some dst) = (role != target_recv) || (dst.type == BufferType.sim_hbm)

unfoldable pub direct_status : Options → ℕ → ℕ → Client → Option Buffer → ℕ
direct_status o path role c dst =
    if path != sim_direct
    then Status.ok
    else if not c.sim_comm_attached
    then Status.unsupported
    else if (c.rank_size != 2) || (leb c.rank_size o.peer_rank || (o.peer_rank == c.rank))
    then Status.invalid_argument
    else if is_sim_target role dst
    then Status.ok
    else Status.invalid_argument

pub data Planned : Type 0 where
  rejected : ℕ → Planned
  planned : Plan → Planned

-- The status of the checks that come before the bytes.
unfoldable pub path_status : Options → ℕ → ℕ → ℕ
path_status o path role =
    if (path == host_staging) && (role != role_host_staging)
    then Status.invalid_argument
    else if o.require_direct && (path != sim_direct)
    then Status.unsupported
    else if not o.allow_host_staging && (path == host_staging)
    then Status.unsupported
    else Status.ok

-- The window that a plan has counts the plan.
unfoldable pub counted : Option Window → Option Window
counted none = none
counted (some w) = some (record w { plan_ref_count = w.plan_ref_count + 1 })

after_bytes : Options → ℕ → ℕ → Client → Option Block → Option Buffer → ℕ → Sized → Planned
unfolding counted
after_bytes o path role c block dst dst_offset (refused status) = rejected status
after_bytes o path role c block dst dst_offset (bytes n) =
    let status = direct_status o path role c dst in
    if status != Status.ok
    then rejected status
    else planned (record {
      client = c.id;
      block = block;
      dst = dst;
      target_window = counted o.target_window;
      dst_offset = dst_offset;
      path = path;
      role = role;
      peer_rank = o.peer_rank;
      require_direct = o.require_direct;
      allow_host_staging = o.allow_host_staging;
      bytes = n;
    })

-- A role of host staging makes the path the same.
abbrev pub staged_path : ℕ → ℕ → ℕ
staged_path path role = if role == role_host_staging then host_staging else path

unfoldable pub flume_storage_direct_plan_create :
    Client → Option Block → Option Buffer → ℕ → Options → Planned
unfolding after_bytes
flume_storage_direct_plan_create c block dst dst_offset o =
    let role = chosen_role o (chosen_path o c) block in
    let path = staged_path (chosen_path o c) role in
    let status = path_status o path role in
    if status != Status.ok
    then rejected status
    else after_bytes o path role c block dst dst_offset
        (role_bytes o path role c block dst dst_offset)

-- The window stops counting the plan.
uncounted : Option Window → Option Window
uncounted none = none
uncounted (some w) = some (record w { plan_ref_count = w.plan_ref_count - 1 })

-- What is left of the plan's window.
unfoldable pub flume_storage_direct_plan_release : Plan → Option Window
unfolding uncounted
flume_storage_direct_plan_release p = uncounted p.target_window
