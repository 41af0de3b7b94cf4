-- ===== src/Payload/Plan/Pair.antt =====
-- The plans of a sender and a receiver, made from the same options, in every order of turns.
use flume_ascend_host_bypass.Prelude.{
  ℕ, zero, suc, ◌≡◌, inl, inr, refl, subst, Bool, true, false, not, ◌&&◌, ◌||◌, Option, none, some,
  List, [], ◌∷◌, arith, Option-cases,
}
use flume_ascend_host_bypass.Payload.Plan.{
  PayloadRole, PayloadTransferMode, PayloadRecvPath, PayloadCompletionMode, PayloadCommBinding,
  PayloadPlanOptions, PayloadPlan, Result, build_pair_copy_plan_with_options, plan_with_steps,
  is_read, is_direct, is_recv,
}
use flume_ascend_host_bypass.Payload.Plan.Machine.{
  Channel, World, Turn, step, land, turn_next, schedule, together, is_good,
}

holds_on : (World → Bool) → Option World → Bool
holds_on test none = true
holds_on test (some v) = test v

-- All schedules from a world, tested for as many moves as the first argument allows.
explore : ℕ → World → Bool
unfolding holds_on
explore zero w = false
explore (suc n) w =
    is_good w
    && ((holds_on (explore n) (turn_next (step PayloadRole.send) w)
          && holds_on (explore n) (turn_next (step PayloadRole.recv) w))
        && (holds_on (explore n) (turn_next (land PayloadRole.send) w)
            && holds_on (explore n) (turn_next (land PayloadRole.recv) w)))

both : (a b : Bool) → (a && b) ≡ true → (a ≡ true) × (b ≡ true)
both true b h = (refl, h)
both false b h = cc

every_turn :
    (test : Option World → Bool) (w : World)
    → (test (turn_next (step PayloadRole.send) w) ≡ true)
      × (test (turn_next (step PayloadRole.recv) w) ≡ true)
    → (test (turn_next (land PayloadRole.send) w) ≡ true)
      × (test (turn_next (land PayloadRole.recv) w) ≡ true)
    → (turn : Turn) → test (turn_next turn w) ≡ true
every_turn test w steps lands (step PayloadRole.send) = steps.0
every_turn test w steps lands (step PayloadRole.recv) = steps.1
every_turn test w steps lands (land PayloadRole.send) = lands.0
every_turn test w steps lands (land PayloadRole.recv) = lands.1

explored :
    (n : ℕ) (w : World)
    → explore (suc n) w ≡ true
    → (is_good w ≡ true) × ((turn : Turn) → holds_on (explore n) (turn_next turn w) ≡ true)
unfolding explore
explored n w h =
    let (good, rest) = both (is_good w) _ h in
    let (steps, lands) = both _ _ rest in
    (good, every_turn (holds_on (explore n)) w (both _ _ steps) (both _ _ lands))

explore-schedule :
    (turns : List Turn) (n : ℕ) (w : World) → explore n w ≡ true → is_good (schedule turns w) ≡ true
unfolding schedule holds_on
explore-schedule turns zero w h = absurd (unfold explore in cc)
explore-schedule [] (suc n) w h = (explored n w h).0
explore-schedule (turn ∷ turns) (suc n) w h = elim (Option-cases (turn_next turn w)) [
  | inl e ↦ rw e (explore-schedule turns (suc n) w h)
  | inr (v, e) ↦ rw e (
      explore-schedule turns n v
        (subst (λ o. holds_on (explore n) o ≡ true) e ((explored n w h).1 turn)))
]

abbrev options :
    PayloadTransferMode
    → PayloadRecvPath
    → PayloadCommBinding
    → PayloadCompletionMode
    → Bool
    → PayloadPlanOptions
options mode path binding completion batch = record {
  transfer_mode = mode;
  recv_path = path;
  comm_binding = binding;
  completion_mode = completion;
  batch_enabled = batch;
}

abbrev pair : Channel → ℕ → ℕ → ℕ → PayloadPlanOptions → World
unfolding plan_with_steps
pair channel a b n o =
    together channel (plan_with_steps PayloadRole.send a b 2 n o)
      (plan_with_steps PayloadRole.recv b a 2 n o)

-- Ordered notifications do on a channel that keeps the order; fences do on any.
abbrev pub suits : PayloadCompletionMode → Channel → Bool
suits PayloadCompletionMode.ordered_notify Channel.in_order = true
suits PayloadCompletionMode.ordered_notify Channel.any_time = false
suits PayloadCompletionMode.by_channel_fence channel = true

module _ (a b n : ℕ) (binding : PayloadCommBinding) (batch : Bool) where
  explored_pair :
      (channel : Channel) (mode : PayloadTransferMode) (path : PayloadRecvPath)
      (completion : PayloadCompletionMode)
      → (is_read mode || not (is_direct path)) ≡ true
      → suits completion channel ≡ true
      → explore 14 (pair channel a b n (options mode path binding completion batch)) ≡ true
  unfolding explore plan_with_steps pair is_read is_direct is_good turn_next
  explored_pair Channel.in_order PayloadTransferMode.read PayloadRecvPath.local_buffer
        PayloadCompletionMode.ordered_notify h k =
      refl
  explored_pair Channel.in_order PayloadTransferMode.read PayloadRecvPath.local_buffer
        PayloadCompletionMode.by_channel_fence h k =
      refl
  explored_pair Channel.in_order PayloadTransferMode.read PayloadRecvPath.direct_output
        PayloadCompletionMode.ordered_notify h k =
      refl
  explored_pair Channel.in_order PayloadTransferMode.read PayloadRecvPath.direct_output
        PayloadCompletionMode.by_channel_fence h k =
      refl
  explored_pair Channel.in_order PayloadTransferMode.write PayloadRecvPath.local_buffer
        PayloadCompletionMode.ordered_notify h k =
      refl
  explored_pair Channel.in_order PayloadTransferMode.write PayloadRecvPath.local_buffer
        PayloadCompletionMode.by_channel_fence h k =
      refl
  explored_pair Channel.in_order PayloadTransferMode.write PayloadRecvPath.direct_output
        PayloadCompletionMode.ordered_notify h k =
      cc
  explored_pair Channel.in_order PayloadTransferMode.write PayloadRecvPath.direct_output
        PayloadCompletionMode.by_channel_fence h k =
      cc
  explored_pair Channel.in_order PayloadTransferMode.write_with_notify PayloadRecvPath.local_buffer
        PayloadCompletionMode.ordered_notify h k =
      refl
  explored_pair Channel.in_order PayloadTransferMode.write_with_notify PayloadRecvPath.local_buffer
        PayloadCompletionMode.by_channel_fence h k =
      refl
  explored_pair Channel.in_order PayloadTransferMode.write_with_notify PayloadRecvPath.direct_output
        PayloadCompletionMode.ordered_notify h k =
      cc
  explored_pair Channel.in_order PayloadTransferMode.write_with_notify PayloadRecvPath.direct_output
        PayloadCompletionMode.by_channel_fence h k =
      cc
  explored_pair Channel.any_time PayloadTransferMode.read PayloadRecvPath.local_buffer
        PayloadCompletionMode.ordered_notify h k =
      cc
  explored_pair Channel.any_time PayloadTransferMode.read PayloadRecvPath.local_buffer
        PayloadCompletionMode.by_channel_fence h k =
      refl
  explored_pair Channel.any_time PayloadTransferMode.read PayloadRecvPath.direct_output
        PayloadCompletionMode.ordered_notify h k =
      cc
  explored_pair Channel.any_time PayloadTransferMode.read PayloadRecvPath.direct_output
        PayloadCompletionMode.by_channel_fence h k =
      refl
  explored_pair Channel.any_time PayloadTransferMode.write PayloadRecvPath.local_buffer
        PayloadCompletionMode.ordered_notify h k =
      cc
  explored_pair Channel.any_time PayloadTransferMode.write PayloadRecvPath.local_buffer
        PayloadCompletionMode.by_channel_fence h k =
      refl
  explored_pair Channel.any_time PayloadTransferMode.write PayloadRecvPath.direct_output
        PayloadCompletionMode.ordered_notify h k =
      cc
  explored_pair Channel.any_time PayloadTransferMode.write PayloadRecvPath.direct_output
        PayloadCompletionMode.by_channel_fence h k =
      cc
  explored_pair Channel.any_time PayloadTransferMode.write_with_notify PayloadRecvPath.local_buffer
        PayloadCompletionMode.ordered_notify h k =
      cc
  explored_pair Channel.any_time PayloadTransferMode.write_with_notify PayloadRecvPath.local_buffer
        PayloadCompletionMode.by_channel_fence h k =
      refl
  explored_pair Channel.any_time PayloadTransferMode.write_with_notify PayloadRecvPath.direct_output
        PayloadCompletionMode.ordered_notify h k =
      cc
  explored_pair Channel.any_time PayloadTransferMode.write_with_notify PayloadRecvPath.direct_output
        PayloadCompletionMode.by_channel_fence h k =
      cc

planned_pair :
    (role : PayloadRole) (a b n : ℕ) (o : PayloadPlanOptions) {p : PayloadPlan}
    → build_pair_copy_plan_with_options role a b 2 n o ≡ Result.planned p
    → (p ≡ plan_with_steps role a b 2 n o)
      × ((is_recv role ≡ true) → (is_read o.transfer_mode || not (is_direct o.recv_path)) ≡ true)
unfolding build_pair_copy_plan_with_options is_recv is_read is_direct
planned_pair role a b n o h = ground arith

-- Let a sender and a receiver make their plans of a pair copy from the same options, and let the
-- ranks take their steps and the channel land their transfers in any order of turns. The channel
-- may keep the order, so that a transfer is over before its rank's next step; where the completion
-- mode is the fence, it may also land a submitted transfer at any time, and a fence waits for it.
-- At every moment the output holds nothing but the input, it holds the input when the receiver has
-- recorded that it is done, and either something can move, or both ranks have finished and the
-- output holds the input.
pub schedule-is_good :
    (channel : Channel) (a b n : ℕ) (o : PayloadPlanOptions) {sender receiver : PayloadPlan}
    → build_pair_copy_plan_with_options PayloadRole.send a b 2 n o ≡ Result.planned sender
    → build_pair_copy_plan_with_options PayloadRole.recv b a 2 n o ≡ Result.planned receiver
    → suits o.completion_mode channel ≡ true
    → (turns : List Turn) → is_good (schedule turns (together channel sender receiver)) ≡ true
unfolding is_recv pair
schedule-is_good channel a b n o hs hr k turns =
    let (es, _) = planned_pair PayloadRole.send a b n o hs in
    let (er, fits) = planned_pair PayloadRole.recv b a n o hr in
    rw (es, er)
      (explore-schedule turns 14 _ (
        explored_pair a b n o.comm_binding o.batch_enabled channel o.transfer_mode o.recv_path
          o.completion_mode (fits refl) k))
