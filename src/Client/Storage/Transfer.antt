-- ===== src/Client/Storage/Transfer.antt =====
-- src/core/client.cc: flume_read_storage_to_hbm_async on the path of host staging. The request is
-- shown as the detached thread leaves it, which waits for the inner one.
use flume_ascend_host_bypass.Prelude.{
  ◌+◌, ◌≤◌, ◌≡◌, refl, true, false, not, ◌||◌, Option, none, some, length, ◌==◌, ◌!=◌,
  if◌then◌else◌, arith,
}
use flume_ascend_host_bypass.Protocol.Checksum.{checksum32}
use flume_ascend_host_bypass.Client.Status
use flume_ascend_host_bypass.Client.BufferType
use flume_ascend_host_bypass.Client.Memory.{Memory, store, load-store}
use flume_ascend_host_bypass.Client.Buffer.{Buffer, validate_range}
use flume_ascend_host_bypass.Client.Io.{
  Io, staged, comm_to_hbm, strict_rejects_staging, make_io, make_pending_io, retain_pending_io,
  complete_pending_io,
}
use flume_ascend_host_bypass.Client.Sim.{Client}
use flume_ascend_host_bypass.Client.Storage.{Block, Copied, flume_read_to_hbm_async}
use flume_ascend_host_bypass.Client.Storage.Plan.{Plan}

-- CompleteStorageDirectFromInner: the wrapper takes over what the inner request has come to.
unfoldable pub complete_from_inner : Io → Io
complete_from_inner inner =
    complete_pending_io inner.status inner.bytes inner.checksum (staged inner.error)
      (retain_pending_io make_pending_io)

wrapped : Copied → Copied
unfolding complete_from_inner
wrapped r = elim r.io [ none ↦ r | some inner ↦ record r { io = some (complete_from_inner inner) } ]

staged_copy : Client → Plan → Option Block → Option Buffer → Memory → Copied
unfolding wrapped
staged_copy c plan (some block) (some dst) m =
    wrapped (flume_read_to_hbm_async c block dst plan.dst_offset m)
staged_copy c plan none dst m = record { status = Status.invalid_argument; io = none; memory = m }
staged_copy c plan (some block) none m = record {
  status = Status.invalid_argument;
  io = none;
  memory = m;
}

-- A plan whose path is host staging.
unfoldable pub read_staged : Client → Plan → Memory → Copied
unfolding staged_copy
read_staged c plan m =
    if plan.client != c.id
    then record { status = Status.invalid_argument; io = none; memory = m }
    else if plan.require_direct || not plan.allow_host_staging
    then record {
      status = Status.ok;
      io = some (make_io Status.unsupported 0 0 strict_rejects_staging);
      memory = m;
    }
    else staged_copy c plan plan.block plan.dst m

-- A transfer by host staging, allowed and not strict, into a simulated HBM buffer of the client
-- with room for the block from the plan's offset on, stores the whole payload of the block and ends
-- with FLUME_OK, its size, its checksum and the text of that path, whatever number of bytes the
-- plan is for.
pub read_staged-whole :
    (c : Client) (plan : Plan) (block : Block) (dst : Buffer) (m : Memory)
    → plan.client ≡ c.id
    → plan.require_direct ≡ false
    → plan.allow_host_staging ≡ true
    → plan.block ≡ some block
    → plan.dst ≡ some dst
    → block.client ≡ c.id
    → dst.client ≡ c.id
    → dst.type ≡ BufferType.sim_hbm
    → plan.dst_offset + length block.payload ≤ dst.len
    → read_staged c plan m ≡ record {
      status = Status.ok;
      io = some (
          make_io Status.ok (length block.payload) (checksum32 block.payload) (staged comm_to_hbm));
      memory = store m (dst.ptr + plan.dst_offset) block.payload;
    }
unfolding read_staged staged_copy wrapped flume_read_to_hbm_async
read_staged-whole c plan block dst m own direct staging from to block_own dst_own kind fits =
    let mine : (plan.client != c.id) ≡ false = ground (arith, own) in
    let guard : ((block.client != c.id)
          || ((dst.client != c.id)
              || not (validate_range dst plan.dst_offset (length block.payload))))
        ≡ false =
      unfold validate_range in ground (arith, block_own, dst_own, fits) in
    let sim : (dst.type == BufferType.sim_hbm) ≡ true = ground (arith, kind) in
    rw
      (
        mine,
        direct,
        staging,
        from,
        to,
        staged_copy,
        flume_read_to_hbm_async,
        guard,
        sim,
        load-store m (dst.ptr + plan.dst_offset) block.payload,
      )
      (unfold complete_from_inner complete_pending_io retain_pending_io make_pending_io make_io in
        refl)
