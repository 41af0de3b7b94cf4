-- ===== src/Client/Io.antt =====
-- src/core/client.cc: flume_io. What a request's error text says is a Detail: a text of the agent, an
-- error of the framing, or one of the texts of the client.
use flume_ascend_host_bypass.Prelude.{ℕ, ◌+◌, ◌-◌, Bool, true, false, List}
use flume_ascend_host_bypass.Protocol.Stream.{Error}
use flume_ascend_host_bypass.Client.Status

-- The three meeting places of the simulated communicator.
pub data Service : Type 0 where
  p2p : Service
  hcomm_payload : Service
  collective : Service

pub data Detail : Type 0 where
  silent : Detail
  text : List ℕ → Detail
  framing : Error → Detail
  invalid_read_resp : Detail
  malformed_read_resp : Detail
  payload_length_mismatch : Detail
  needs_sim_comm : Service → Detail
  parameters_differ : Service → Detail
  duplicate_send : Service → Detail
  duplicate_recv : Service → Detail
  duplicate_rank : Detail
  needs_sim_buffers : Detail
  needs_one_kind : Detail
  needs_comm : Detail
  half_floats : Detail
  unsupported_type : Detail
  pair_only : Detail
  not_in_build : Detail
  file_to_comm : Detail
  comm_to_hbm : Detail
  no_hbm_path : Detail
  strict_rejects_staging : Detail
  staged : Detail → Detail
  direct : Detail → Detail
  needs_hccl_comm : Detail
  no_path : Detail

pub record Io : Type 0 where
  pub done : Bool
  pub status : ℕ
  pub bytes : ℕ
  pub checksum : ℕ
  pub error : Detail
  pub pending_ref_count : ℕ
  pub deleted : Bool

unfoldable pub make_io : ℕ → ℕ → ℕ → Detail → Io
make_io status bytes checksum error = record {
  done = true;
  status = status;
  bytes = bytes;
  checksum = checksum;
  error = error;
  pending_ref_count = 0;
  deleted = false;
}

unfoldable pub make_pending_io : Io
make_pending_io = record {
  done = false;
  status = Status.pending;
  bytes = 0;
  checksum = 0;
  error = Detail.silent;
  pending_ref_count = 0;
  deleted = false;
}

unfoldable pub complete_io : ℕ → ℕ → ℕ → Detail → Io → Io
complete_io status bytes checksum error io = record io {
  done = true;
  status = status;
  bytes = bytes;
  checksum = checksum;
  error = error;
}

unfoldable pub retain_pending_io : Io → Io
retain_pending_io io = record io { pending_ref_count = io.pending_ref_count + 1 }

-- The count is 1 at least where the source calls this.
unfoldable pub complete_pending_io : ℕ → ℕ → ℕ → Detail → Io → Io
complete_pending_io status bytes checksum error io = record io {
  done = true;
  status = status;
  bytes = bytes;
  checksum = checksum;
  error = error;
  pending_ref_count = io.pending_ref_count - 1;
}
