-- ===== src/Payload/Resources.antt =====
-- src/hcomm_payload/payload_backend.cc: the launch smoke plan, the resource descriptor and the
-- notify-only plan. Names are lists of character codes.
use flume_ascend_host_bypass.Prelude.{
  ℕ, ◌+◌, ◌≤◌, ◌<◌, ◌≡◌, ◌≢◌, Bool, true, false, ◌||◌, List, [], ◌∷◌, min, arith, ltb, ◌==◌, ◌!=◌,
  if◌then◌else◌,
}
use flume_ascend_host_bypass.Payload.Plan.{PayloadRole, invalid_ranks}

pub data Error : Type 0 where
  not_two_ranks : Error
  invalid_peer_rank : Error
  no_channel : Error
  too_few_notifies : Error
  empty_buffer : Error
  incomplete_metadata : Error
  same_notify_index : Error

pub data Result (A : Type 0) : Type 0 where
  built : A → Result A
  refused : Error → Result A

pub data CustomOpLaunchSmokeStep : Type 0 where
  resolve_scheduler : CustomOpLaunchSmokeStep
  package_noop_kernel_args : CustomOpLaunchSmokeStep
  submit_noop_custom_op : CustomOpLaunchSmokeStep
  sync_stream : CustomOpLaunchSmokeStep

pub record CustomOpLaunchSmokePlan : Type 0 where
  pub local_rank : ℕ
  pub peer_rank : ℕ
  pub rank_size : ℕ
  pub steps : List CustomOpLaunchSmokeStep

unfoldable pub build_custom_op_launch_smoke_plan : ℕ → ℕ → ℕ → Result CustomOpLaunchSmokePlan
unfolding invalid_ranks
build_custom_op_launch_smoke_plan local_rank peer_rank rank_size =
    if rank_size != 2
    then Result.refused Error.not_two_ranks
    else if invalid_ranks local_rank peer_rank rank_size
    then Result.refused Error.invalid_peer_rank
    else Result.built (record {
      local_rank = local_rank;
      peer_rank = peer_rank;
      rank_size = rank_size;
      steps =
          CustomOpLaunchSmokeStep.resolve_scheduler
          ∷ CustomOpLaunchSmokeStep.package_noop_kernel_args
          ∷ CustomOpLaunchSmokeStep.submit_noop_custom_op ∷ CustomOpLaunchSmokeStep.sync_stream
          ∷ [];
    })

pub record ResourceDescriptor : Type 0 where
  pub local_rank : ℕ
  pub peer_rank : ℕ
  pub rank_size : ℕ
  pub channel_count : ℕ
  pub notify_num : ℕ
  pub ready_notify_idx : ℕ
  pub done_notify_idx : ℕ
  pub local_hccl_buffer_bytes : ℕ
  pub remote_hccl_buffer_bytes : ℕ
  pub usable_hccl_buffer_bytes : ℕ
  pub local_hccl_buffer_acquired : Bool
  pub remote_hccl_buffer_acquired : Bool
  pub thread_export_required : Bool
  pub resolved_engine : List ℕ
  pub resolved_protocol : List ℕ
  pub channel_desc_source : List ℕ

is_empty : List ℕ → Bool
is_empty [] = true
is_empty (c ∷ cs) = false

module _ (local_rank peer_rank rank_size channel_count notify_num : ℕ)
    (local_hccl_buffer_bytes remote_hccl_buffer_bytes : ℕ) (thread_export_required : Bool)
    (resolved_engine resolved_protocol channel_desc_source : List ℕ) where
  unfoldable pub build_resource_descriptor : Result ResourceDescriptor
  unfolding invalid_ranks is_empty
  build_resource_descriptor =
      if rank_size != 2
      then Result.refused Error.not_two_ranks
      else if invalid_ranks local_rank peer_rank rank_size
      then Result.refused Error.invalid_peer_rank
      else if channel_count == 0
      then Result.refused Error.no_channel
      else if ltb notify_num 2
      then Result.refused Error.too_few_notifies
      else if (local_hccl_buffer_bytes == 0) || (remote_hccl_buffer_bytes == 0)
      then Result.refused Error.empty_buffer
      else if is_empty resolved_engine
          || (is_empty resolved_protocol || is_empty channel_desc_source)
      then Result.refused Error.incomplete_metadata
      else Result.built (record {
        local_rank = local_rank;
        peer_rank = peer_rank;
        rank_size = rank_size;
        channel_count = channel_count;
        notify_num = notify_num;
        ready_notify_idx = 0;
        done_notify_idx = 1;
        local_hccl_buffer_bytes = local_hccl_buffer_bytes;
        remote_hccl_buffer_bytes = remote_hccl_buffer_bytes;
        usable_hccl_buffer_bytes = min local_hccl_buffer_bytes remote_hccl_buffer_bytes;
        local_hccl_buffer_acquired = true;
        remote_hccl_buffer_acquired = true;
        thread_export_required = thread_export_required;
        resolved_engine = resolved_engine;
        resolved_protocol = resolved_protocol;
        channel_desc_source = channel_desc_source;
      })

  -- A resource descriptor that is built names the two ranks 0 and 1, has a usable buffer size of at
  -- least 1 and at most that of either buffer, and two different notify indices below the number of
  -- notifies.
  pub build_resource_descriptor-usable :
      {d : ResourceDescriptor}
      → build_resource_descriptor ≡ Result.built d
      → (d.local_rank + d.peer_rank ≡ 1)
        × (1 ≤ d.usable_hccl_buffer_bytes)
        × (d.usable_hccl_buffer_bytes ≤ local_hccl_buffer_bytes)
        × (d.usable_hccl_buffer_bytes ≤ remote_hccl_buffer_bytes)
        × (d.ready_notify_idx ≢ d.done_notify_idx)
        × (d.ready_notify_idx < d.notify_num)
        × (d.done_notify_idx < d.notify_num)
  unfolding build_resource_descriptor
  build_resource_descriptor-usable h = ground arith

pub data NotifyOnlyStep : Type 0 where
  consume_resource_descriptor : NotifyOnlyStep
  channel_notify_record_ready : NotifyOnlyStep
  channel_notify_wait_ready : NotifyOnlyStep
  channel_notify_record_done : NotifyOnlyStep
  channel_notify_wait_done : NotifyOnlyStep

pub record NotifyOnlyPlan : Type 0 where
  pub role : PayloadRole
  pub local_rank : ℕ
  pub peer_rank : ℕ
  pub rank_size : ℕ
  pub ready_notify_idx : ℕ
  pub done_notify_idx : ℕ
  pub timeout_sec : ℕ
  pub steps : List NotifyOnlyStep

notify_only_steps : PayloadRole → List NotifyOnlyStep
notify_only_steps PayloadRole.send =
    NotifyOnlyStep.consume_resource_descriptor ∷ NotifyOnlyStep.channel_notify_record_ready
    ∷ NotifyOnlyStep.channel_notify_wait_done ∷ []
notify_only_steps PayloadRole.recv =
    NotifyOnlyStep.consume_resource_descriptor ∷ NotifyOnlyStep.channel_notify_wait_ready
    ∷ NotifyOnlyStep.channel_notify_record_done ∷ []

unfoldable pub build_notify_only_plan : PayloadRole → ℕ → ℕ → ℕ → ℕ → ℕ → Result NotifyOnlyPlan
unfolding invalid_ranks notify_only_steps
build_notify_only_plan role local_rank peer_rank rank_size ready_notify_idx done_notify_idx =
    if rank_size != 2
    then Result.refused Error.not_two_ranks
    else if invalid_ranks local_rank peer_rank rank_size
    then Result.refused Error.invalid_peer_rank
    else if ready_notify_idx == done_notify_idx
    then Result.refused Error.same_notify_index
    else Result.built (record {
      role = role;
      local_rank = local_rank;
      peer_rank = peer_rank;
      rank_size = rank_size;
      ready_notify_idx = ready_notify_idx;
      done_notify_idx = done_notify_idx;
      timeout_sec = 60;
      steps = notify_only_steps role;
    })
