-- ===== src/Payload/Plan/Machine.antt =====
-- What the plans of a sender and a receiver do together, on an abstract machine of their steps. A
-- wait is passed only behind the record that it waits for. As tools/README.md says of the completion
-- modes, a step that reads or writes the other rank's buffer may do no more than submit the
-- transfer, and a fence is what waits until it has landed.
use flume_ascend_host_bypass.Prelude.{
  Bool, true, false, not, ◌&&◌, ◌||◌, Option, none, some, List, [], ◌∷◌, if◌then◌else◌,
}
use flume_ascend_host_bypass.Payload.Plan.{PayloadRole, PayloadStep, PayloadPlan}

-- What a buffer holds: nothing that a step wrote, the bytes of the input, or what a step copied from
-- a buffer that did not hold them.
pub data Content : Type 0 where
  untouched payload garbage : Content

copied : Content → Content
copied Content.untouched = Content.garbage
copied Content.payload = Content.payload
copied Content.garbage = Content.garbage

-- The channel between the ranks. On one that keeps the order, a transfer is over before its rank
-- takes the next step. On the other, a step only submits it: it lands at a time of its own.
pub data Channel : Type 0 where
  in_order any_time : Channel

-- A transfer that has been submitted and has not landed.
pub data Flight : Type 0 where
  nothing to_recv_buffer to_recv_buffer_with_notify to_output : Flight

-- The two ranks: what each has still to do and its transfer under way, the notifications, and the
-- contents of the buffers.
pub record World : Type 0 where
  pub channel : Channel
  pub sending : List PayloadStep
  pub receiving : List PayloadStep
  pub writing : Flight
  pub reading : Flight
  pub ready : Bool
  pub done : Bool
  pub send_buffer : Content
  pub recv_buffer : Content
  pub output : Content

-- What a transfer brings about when it lands: the data, and behind it the notification.
landed : Flight → World → World
unfolding copied
landed Flight.nothing w = w
landed Flight.to_recv_buffer w = record w { recv_buffer = copied w.send_buffer }
landed Flight.to_recv_buffer_with_notify w = record w {
  recv_buffer = copied w.send_buffer;
  ready = true;
}
landed Flight.to_output w = record w { output = copied w.send_buffer }

write : Flight → World → World
unfolding landed
write flight w = elim w.channel [
  | Channel.in_order ↦ landed flight w
  | Channel.any_time ↦ record w { writing = flight }
]

read : Flight → World → World
unfolding landed
read flight w = elim w.channel [
  | Channel.in_order ↦ landed flight w
  | Channel.any_time ↦ record w { reading = flight }
]

is_under_way : Flight → Bool
is_under_way Flight.nothing = false
is_under_way _ = true

-- The next step of a rank; none where it has finished, waits, or has a step of the other rank. A
-- fence waits for the transfer of its rank.
unfoldable pub send_next : World → Option World
unfolding write is_under_way
send_next w = elim w.sending [
  | PayloadStep.local_copy_input_to_hccl_buffer ∷ rest ↦
      some (record w { sending = rest; send_buffer = Content.payload })
  | PayloadStep.channel_notify_record_ready ∷ rest ↦
      some (record w { sending = rest; ready = true })
  | PayloadStep.channel_write_local_to_remote_hccl_buffer ∷ rest ↦
      some (write Flight.to_recv_buffer (record w { sending = rest }))
  | PayloadStep.channel_write_with_notify_local_to_remote_hccl_buffer ∷ rest ↦
      some (write Flight.to_recv_buffer_with_notify (record w { sending = rest }))
  | PayloadStep.channel_fence ∷ rest ↦
      if is_under_way w.writing then none else some (record w { sending = rest })
  | PayloadStep.channel_notify_wait_done ∷ rest ↦
      if w.done then some (record w { sending = rest }) else none
  | _ ↦ none
]

unfoldable pub recv_next : World → Option World
unfolding copied read is_under_way
recv_next w = elim w.receiving [
  | PayloadStep.channel_notify_wait_ready ∷ rest ↦
      if w.ready then some (record w { receiving = rest }) else none
  | PayloadStep.channel_read_remote_to_local_hccl_buffer ∷ rest ↦
      some (read Flight.to_recv_buffer (record w { receiving = rest }))
  | PayloadStep.channel_read_remote_to_output ∷ rest ↦
      some (read Flight.to_output (record w { receiving = rest }))
  | PayloadStep.local_copy_local_hccl_buffer_to_output ∷ rest ↦
      some (record w { receiving = rest; output = copied w.recv_buffer })
  | PayloadStep.channel_fence ∷ rest ↦
      if is_under_way w.reading then none else some (record w { receiving = rest })
  | PayloadStep.channel_notify_record_done ∷ rest ↦
      some (record w { receiving = rest; done = true })
  | _ ↦ none
]

-- A transfer under way lands.
land_next : PayloadRole → World → Option World
unfolding landed is_under_way
land_next PayloadRole.send w =
    if is_under_way w.writing
    then some (landed w.writing (record w { writing = Flight.nothing }))
    else none
land_next PayloadRole.recv w =
    if is_under_way w.reading
    then some (landed w.reading (record w { reading = Flight.nothing }))
    else none

-- Who moves: a rank, with its next step, or the channel, with a rank's transfer.
pub data Turn : Type 0 where
  step : PayloadRole → Turn
  land : PayloadRole → Turn

unfoldable pub turn_next : Turn → World → Option World
unfolding send_next recv_next land_next
turn_next (step PayloadRole.send) w = send_next w
turn_next (step PayloadRole.recv) w = recv_next w
turn_next (land role) w = land_next role w

abbrev pub moved : World → Option World → World
moved w none = w
moved w (some v) = v

-- Turns are taken as the schedule says; one that cannot move passes.
unfoldable pub schedule : List Turn → World → World
unfolding moved
schedule [] w = w
schedule (turn ∷ turns) w = schedule turns (moved w (turn_next turn w))

abbrev pub together : Channel → PayloadPlan → PayloadPlan → World
together channel sender receiver = record {
  channel = channel;
  sending = sender.steps;
  receiving = receiver.steps;
  writing = Flight.nothing;
  reading = Flight.nothing;
  ready = false;
  done = false;
  send_buffer = Content.untouched;
  recv_buffer = Content.untouched;
  output = Content.untouched;
}

is_some : {A : Type 0} → Option A → Bool
is_some none = false
is_some (some a) = true

unfoldable pub is_movable : World → Bool
unfolding turn_next is_some
is_movable w =
    is_some (turn_next (step PayloadRole.send) w)
    || (is_some (turn_next (step PayloadRole.recv) w)
        || (is_some (turn_next (land PayloadRole.send) w)
            || is_some (turn_next (land PayloadRole.recv) w)))

is_payload : Content → Bool
is_payload Content.payload = true
is_payload _ = false

is_garbage : Content → Bool
is_garbage Content.garbage = true
is_garbage _ = false

has_finished : World → Bool
has_finished w = elim w.sending [
  | [] ↦ elim w.receiving [ [] ↦ true | _ ∷ _ ↦ false ]
  | _ ∷ _ ↦ false
]

-- The output never holds anything but the input, and holds it when the receiver has recorded that
-- it is done; and something can move, or both ranks have finished.
unfoldable pub is_good : World → Bool
unfolding is_movable has_finished is_payload is_garbage
is_good w =
    not (is_garbage w.output)
    && ((not w.done || is_payload w.output)
        && (is_movable w || (has_finished w && is_payload w.output)))
