-- ===== src/Client/Storage/Tests.antt =====
-- The properties of plans and of the transfers that follow them.
use flume_ascend_host_bypass.Prelude.{◌≡◌, refl, true, false, none, some, [], ◌∷◌, arith}
use flume_ascend_host_bypass.Protocol.Checksum.{checksum32}
use flume_ascend_host_bypass.Client.Status
use flume_ascend_host_bypass.Client.BufferType
use flume_ascend_host_bypass.Client.Memory.{store}
use flume_ascend_host_bypass.Client.Buffer.{Buffer}
use flume_ascend_host_bypass.Client.Io.{staged, comm_to_hbm, make_io}
use flume_ascend_host_bypass.Client.Sim.{Client}
use flume_ascend_host_bypass.Client.Storage.{Block, Window}
use flume_ascend_host_bypass.Client.Storage.Plan.{
  Options, Plan, default_options, sim_direct, host_staging, target_recv, role_host_staging,
}
use flume_ascend_host_bypass.Client.Storage.Transfer.{read_staged, read_staged-whole}

abbrev client : Client
client = record {
  id = 7;
  sim_comm_attached = true;
  sim_comm_name = 99 ∷ [];
  rank = 1;
  rank_size = 2;
  sim_allreduce_seq = 0;
  sim_allgather_seq = 0;
  sim_p2p_send_seq = 0;
  sim_p2p_recv_seq = 0;
  sim_hcomm_payload_send_seq = 0;
  sim_hcomm_payload_recv_seq = 0;
  sim_a3_register_seq = 0;
}

abbrev dst : Buffer
dst = record { handle = 1; client = 7; ptr = 500; len = 32; type = BufferType.sim_hbm }

abbrev window : Window
window = record {
  client = 7;
  buffer = dst;
  offset = 8;
  len = 16;
  sim_lkey = 0;
  sim_rkey = 0;
  plan_ref_count = 0;
}

abbrev options : Options
options = record default_options { len = 4; target_window = some window }

abbrev plan : Plan
plan = record {
  client = 7;
  block = none;
  dst = some dst;
  target_window = some (record window { plan_ref_count = 1 });
  dst_offset = 20;
  path = sim_direct;
  role = target_recv;
  peer_rank = 0;
  require_direct = false;
  allow_host_staging = true;
  bytes = 4;
}

abbrev block : Block
block = record { client = 7; payload = 1 ∷ 2 ∷ 3 ∷ 4 ∷ 5 ∷ []; file_offset = 0 }

-- A plan for two bytes of five.
abbrev staged_plan : Plan
staged_plan = record {
  client = 7;
  block = some block;
  dst = some dst;
  target_window = none;
  dst_offset = 20;
  path = host_staging;
  role = role_host_staging;
  peer_rank = 0;
  require_direct = false;
  allow_host_staging = true;
  bytes = 2;
}

read_staged-whole_example : read_staged client staged_plan (λ a. 0) ≡ record {
  status = Status.ok;
  io = some (make_io Status.ok 5 (checksum32 block.payload) (staged comm_to_hbm));
  memory = store (λ a. 0) 520 block.payload;
}
read_staged-whole_example =
    read_staged-whole client staged_plan block dst (λ a. 0) refl refl refl refl refl refl refl refl
      (omega arith)
