-- ===== src/Payload/Tests.antt =====
-- The properties of the plans, applied to two ranks.
use flume_ascend_host_bypass.Prelude.{◌+◌, ◌≤◌, ◌<◌, ◌≡◌, ◌≢◌, refl, true, List, [], ◌∷◌}
use flume_ascend_host_bypass.Payload.Plan.{
  PayloadRole, PayloadPlan, PayloadPlanOptions, PayloadTransferMode, PayloadCompletionMode,
  default_options, plan_with_steps, build_pair_copy_plan_with_options,
}
use flume_ascend_host_bypass.Payload.Plan.Machine.{
  Turn, step, land, Channel, schedule, together, is_good,
}
use flume_ascend_host_bypass.Payload.Plan.Pair.{schedule-is_good}
use flume_ascend_host_bypass.Payload.Resources.{
  ResourceDescriptor, build_resource_descriptor, build_resource_descriptor-usable,
}

abbrev fenced : PayloadPlanOptions
fenced = record default_options {
  transfer_mode = PayloadTransferMode.write;
  completion_mode = PayloadCompletionMode.by_channel_fence;
}

abbrev sender : PayloadPlan
unfolding plan_with_steps
sender = plan_with_steps PayloadRole.send 0 1 2 64 fenced

abbrev receiver : PayloadPlan
unfolding plan_with_steps
receiver = plan_with_steps PayloadRole.recv 1 0 2 64 fenced

-- The write is submitted, and the sender's fence holds it back until it has landed.
abbrev turns : List Turn
turns =
    step PayloadRole.send
    ∷ step PayloadRole.send
    ∷ step PayloadRole.send
    ∷ land PayloadRole.send
    ∷ step PayloadRole.send
    ∷ step PayloadRole.recv
    ∷ []

schedule-is_good_example :
    is_good (schedule turns (together Channel.any_time sender receiver)) ≡ true
unfolding build_pair_copy_plan_with_options sender receiver
schedule-is_good_example =
    schedule-is_good Channel.any_time 0 1 64 fenced {sender = sender} {receiver = receiver} refl
      refl refl turns

abbrev descriptor : ResourceDescriptor
descriptor = record {
  local_rank = 0;
  peer_rank = 1;
  rank_size = 2;
  channel_count = 1;
  notify_num = 2;
  ready_notify_idx = 0;
  done_notify_idx = 1;
  local_hccl_buffer_bytes = 4096;
  remote_hccl_buffer_bytes = 2048;
  usable_hccl_buffer_bytes = 2048;
  local_hccl_buffer_acquired = true;
  remote_hccl_buffer_acquired = true;
  thread_export_required = true;
  resolved_engine = 1 ∷ [];
  resolved_protocol = 2 ∷ [];
  channel_desc_source = 3 ∷ [];
}

build_resource_descriptor-usable_example :
    (descriptor.local_rank + descriptor.peer_rank ≡ 1)
    × (1 ≤ descriptor.usable_hccl_buffer_bytes)
    × (descriptor.usable_hccl_buffer_bytes ≤ 4096)
    × (descriptor.usable_hccl_buffer_bytes ≤ 2048)
    × (descriptor.ready_notify_idx ≢ descriptor.done_notify_idx)
    × (descriptor.ready_notify_idx < descriptor.notify_num)
    × (descriptor.done_notify_idx < descriptor.notify_num)
unfolding build_resource_descriptor
build_resource_descriptor-usable_example =
    build_resource_descriptor-usable 0 1 2 1 2 4096 2048 true (1 ∷ []) (2 ∷ []) (3 ∷ [])
      {d = descriptor} refl
