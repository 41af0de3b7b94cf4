-- ===== src/Payload/Plan.antt =====
-- src/hcomm_payload/payload_backend.cc: the plans of the two ranks of a pair copy, as lists of steps.
-- The messages of a refusal are the constructors of Error.
pub mod Machine
pub mod Pair
use flume_ascend_host_bypass.Prelude.{
  ℕ, Bool, true, false, ◌&&◌, ◌||◌, List, [], ◌∷◌, ◌++◌, leb, ◌==◌, ◌!=◌, if◌then◌else◌,
}

pub data PayloadRole : Type 0 where
  send recv : PayloadRole

pub data PayloadStep : Type 0 where
  local_copy_input_to_hccl_buffer : PayloadStep
  channel_notify_record_ready : PayloadStep
  channel_notify_wait_ready : PayloadStep
  channel_read_remote_to_local_hccl_buffer : PayloadStep
  channel_notify_wait_done : PayloadStep
  channel_notify_record_done : PayloadStep
  local_copy_local_hccl_buffer_to_output : PayloadStep
  channel_read_remote_to_output : PayloadStep
  channel_write_local_to_remote_hccl_buffer : PayloadStep
  channel_write_with_notify_local_to_remote_hccl_buffer : PayloadStep
  channel_fence : PayloadStep

pub data PayloadTransferMode : Type 0 where
  read write write_with_notify : PayloadTransferMode

pub data PayloadRecvPath : Type 0 where
  local_buffer direct_output : PayloadRecvPath

pub data PayloadCommBinding : Type 0 where
  comm_name diagnostic_skip channel_handle : PayloadCommBinding

pub data PayloadCompletionMode : Type 0 where
  ordered_notify by_channel_fence : PayloadCompletionMode

pub record PayloadPlanOptions : Type 0 where
  pub transfer_mode : PayloadTransferMode
  pub recv_path : PayloadRecvPath
  pub comm_binding : PayloadCommBinding
  pub completion_mode : PayloadCompletionMode
  pub batch_enabled : Bool

abbrev pub default_options : PayloadPlanOptions
default_options = record {
  transfer_mode = PayloadTransferMode.read;
  recv_path = PayloadRecvPath.local_buffer;
  comm_binding = PayloadCommBinding.comm_name;
  completion_mode = PayloadCompletionMode.ordered_notify;
  batch_enabled = true;
}

pub record PayloadPlan : Type 0 where
  pub role : PayloadRole
  pub local_rank : ℕ
  pub peer_rank : ℕ
  pub rank_size : ℕ
  pub bytes : ℕ
  pub ready_notify_idx : ℕ
  pub done_notify_idx : ℕ
  pub transfer_mode : PayloadTransferMode
  pub recv_path : PayloadRecvPath
  pub comm_binding : PayloadCommBinding
  pub completion_mode : PayloadCompletionMode
  pub batch_enabled : Bool
  pub steps : List PayloadStep

pub data Error : Type 0 where
  not_two_ranks : Error
  invalid_peer_rank : Error
  no_bytes : Error
  write_with_notify_to_output : Error
  write_to_output : Error

pub data Result : Type 0 where
  planned : PayloadPlan → Result
  refused : Error → Result

unfoldable pub is_recv : PayloadRole → Bool
is_recv PayloadRole.send = false
is_recv PayloadRole.recv = true

unfoldable pub is_direct : PayloadRecvPath → Bool
is_direct PayloadRecvPath.local_buffer = false
is_direct PayloadRecvPath.direct_output = true

is_write : PayloadTransferMode → Bool
is_write PayloadTransferMode.write = true
is_write _ = false

is_write_with_notify : PayloadTransferMode → Bool
is_write_with_notify PayloadTransferMode.write_with_notify = true
is_write_with_notify _ = false

unfoldable pub is_read : PayloadTransferMode → Bool
is_read PayloadTransferMode.read = true
is_read _ = false

-- The fence, where the completion mode asks for one.
fence : PayloadCompletionMode → List PayloadStep
fence PayloadCompletionMode.ordered_notify = []
fence PayloadCompletionMode.by_channel_fence = PayloadStep.channel_fence ∷ []

send_steps : PayloadPlanOptions → List PayloadStep
unfolding is_write_with_notify is_write fence
send_steps o =
    let steps = PayloadStep.local_copy_input_to_hccl_buffer ∷ [] in
    let steps =
      if is_write_with_notify o.transfer_mode
      then steps
        ++ (PayloadStep.channel_write_with_notify_local_to_remote_hccl_buffer
            ∷ fence o.completion_mode)
      else if is_write o.transfer_mode
      then steps
        ++ (PayloadStep.channel_write_local_to_remote_hccl_buffer ∷ fence o.completion_mode)
        ++ (PayloadStep.channel_notify_record_ready ∷ [])
      else steps ++ (PayloadStep.channel_notify_record_ready ∷ []) in
    steps ++ (PayloadStep.channel_notify_wait_done ∷ [])

recv_steps : PayloadPlanOptions → List PayloadStep
unfolding is_read is_direct fence
recv_steps o =
    let steps = PayloadStep.channel_notify_wait_ready ∷ [] in
    let steps =
      if is_read o.transfer_mode
      then steps
        ++ ((if is_direct o.recv_path
              then PayloadStep.channel_read_remote_to_output
              else PayloadStep.channel_read_remote_to_local_hccl_buffer)
            ∷ fence o.completion_mode)
      else steps in
    let steps =
      if is_read o.transfer_mode && is_direct o.recv_path
      then steps
      else steps ++ (PayloadStep.local_copy_local_hccl_buffer_to_output ∷ []) in
    steps ++ (PayloadStep.channel_notify_record_done ∷ [])

plan_steps : PayloadRole → PayloadPlanOptions → List PayloadStep
unfolding send_steps recv_steps
plan_steps PayloadRole.send o = send_steps o
plan_steps PayloadRole.recv o = recv_steps o

unfoldable pub plan_with_steps : PayloadRole → ℕ → ℕ → ℕ → ℕ → PayloadPlanOptions → PayloadPlan
unfolding plan_steps
plan_with_steps role local_rank peer_rank rank_size bytes o = record {
  role = role;
  local_rank = local_rank;
  peer_rank = peer_rank;
  rank_size = rank_size;
  bytes = bytes;
  ready_notify_idx = 0;
  done_notify_idx = 1;
  transfer_mode = o.transfer_mode;
  recv_path = o.recv_path;
  comm_binding = o.comm_binding;
  completion_mode = o.completion_mode;
  batch_enabled = o.batch_enabled;
  steps = plan_steps role o;
}

-- `local_rank >= rank_size || peer_rank >= rank_size || local_rank == peer_rank`
unfoldable pub invalid_ranks : ℕ → ℕ → ℕ → Bool
invalid_ranks local_rank peer_rank rank_size =
    leb rank_size local_rank || (leb rank_size peer_rank || (local_rank == peer_rank))

unfoldable pub build_pair_copy_plan_with_options :
    PayloadRole → ℕ → ℕ → ℕ → ℕ → PayloadPlanOptions → Result
unfolding invalid_ranks is_write_with_notify is_write is_recv is_direct
build_pair_copy_plan_with_options role local_rank peer_rank rank_size bytes o =
    if rank_size != 2
    then Result.refused Error.not_two_ranks
    else if invalid_ranks local_rank peer_rank rank_size
    then Result.refused Error.invalid_peer_rank
    else if bytes == 0
    then Result.refused Error.no_bytes
    else if is_write_with_notify o.transfer_mode && (is_recv role && is_direct o.recv_path)
    then Result.refused Error.write_with_notify_to_output
    else if is_write o.transfer_mode && (is_recv role && is_direct o.recv_path)
    then Result.refused Error.write_to_output
    else Result.planned (plan_with_steps role local_rank peer_rank rank_size bytes o)

unfoldable pub build_pair_copy_plan : PayloadRole → ℕ → ℕ → ℕ → ℕ → Result
build_pair_copy_plan role local_rank peer_rank rank_size bytes =
    build_pair_copy_plan_with_options role local_rank peer_rank rank_size bytes default_options
