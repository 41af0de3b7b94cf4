-- ===== src/Agent/Account.antt =====
-- What a session of a client is: the rounds that are served, why there are no more, and what lies on
-- the wire.
use flume_ascend_host_bypass.Prelude.{ℕ, ◌≡◌, true, false, none, some, List, [], ◌∷◌, ◌++◌}
use flume_ascend_host_bypass.Protocol.Stream.{Received, Sink, Outcome, Error}
use flume_ascend_host_bypass.Protocol.Frame.{Frame, read_frame, write_frame}
use flume_ascend_host_bypass.Protocol.Frame.RoundTrip.{wire_form}
use flume_ascend_host_bypass.Storage.System.{System}
use flume_ascend_host_bypass.Agent.{handle_request}
use flume_ascend_host_bypass.Agent.Loop.{Round, left, pending, going, Served}
use flume_ascend_host_bypass.Agent.Table.{Agent}

-- Requests with their replies, from the first to the last, and the agents between them.
pub data Trace : Agent → List (Frame × Frame) → Agent → Type 0 where
  over : {a : Agent} → Trace a [] a
  step :
      {a b c : Agent} {log : List (Frame × Frame)} (sys : System) (request reply : Frame)
      → handle_request sys request a ≡ (some reply, b)
      → Trace b log c
      → Trace a ((request, reply) ∷ log) c

-- The replies as they travel.
abbrev pub replies : List (Frame × Frame) → List ℕ
replies [] = []
replies ((request, reply) ∷ log) = wire_form reply ++ replies log

-- Where a session stands: the rounds to come, the agent, what the client will send, and the socket.
pub record Standing : Type 0 where
  pub rounds : List Round
  pub agent : Agent
  pub input : List Received
  pub sink : Sink

-- One round after the other is served: the agent runs, the next frame of the input is the request,
-- the round's system answers it, and the reply is written whole.
pub data Serves : Standing → List (Frame × Frame) → Standing → Type 0 where
  over : {s : Standing} → Serves s [] s
  step :
      {rounds : List Round} {a b : Agent} {input after : List Received} {sink t : Sink}
      {log : List (Frame × Frame)} {last : Standing} (round : Round) (request reply : Frame)
      → round.running ≡ true
      → read_frame input ≡ (Outcome.ok request, after)
      → handle_request round.system request a ≡ (some reply, b)
      → write_frame reply sink ≡ (Outcome.ok tt, t)
      → Serves (record { rounds = rounds; agent = b; input = after; sink = t }) log last
      → Serves
          (record { rounds = round ∷ rounds; agent = a; input = input; sink = sink })
          ((request, reply) ∷ log)
          last

-- Why no further round is served, and what is left then.
pub data Ends (a : Agent) (input : List Received) (sink : Sink) : List Round → Served → Type 0 where
  all_served :
      Ends a input sink [] (record { ending = going; agent = a; input = input; sink = sink })
  stopped :
      {rounds : List Round} (round : Round)
      → round.running ≡ false
      → Ends a input sink
          (round ∷ rounds)
          (record { ending = left; agent = a; input = input; sink = sink })
  unread :
      {rounds : List Round} {after : List Received} (round : Round) (e : Error)
      → round.running ≡ true
      → read_frame input ≡ (Outcome.err e, after)
      → Ends a input sink
          (round ∷ rounds)
          (record { ending = left; agent = a; input = after; sink = sink })
  reading :
      {rounds : List Round} {after : List Received} (round : Round)
      → round.running ≡ true
      → read_frame input ≡ (Outcome.waiting, after)
      → Ends a input sink
          (round ∷ rounds)
          (record { ending = pending; agent = a; input = after; sink = sink })
  unanswered :
      {rounds : List Round} {after : List Received} {b : Agent} (round : Round) (request : Frame)
      → round.running ≡ true
      → read_frame input ≡ (Outcome.ok request, after)
      → handle_request round.system request a ≡ (none, b)
      → Ends a input sink
          (round ∷ rounds)
          (record { ending = pending; agent = b; input = after; sink = sink })
  unsent :
      {rounds : List Round} {after : List Received} {b : Agent} {t : Sink} (round : Round)
      (request reply : Frame) (e : Error)
      → round.running ≡ true
      → read_frame input ≡ (Outcome.ok request, after)
      → handle_request round.system request a ≡ (some reply, b)
      → write_frame reply sink ≡ (Outcome.err e, t)
      → Ends a input sink
          (round ∷ rounds)
          (record { ending = left; agent = b; input = after; sink = t })
  sending :
      {rounds : List Round} {after : List Received} {b : Agent} {t : Sink} (round : Round)
      (request reply : Frame)
      → round.running ≡ true
      → read_frame input ≡ (Outcome.ok request, after)
      → handle_request round.system request a ≡ (some reply, b)
      → write_frame reply sink ≡ (Outcome.waiting, t)
      → Ends a input sink
          (round ∷ rounds)
          (record { ending = pending; agent = b; input = after; sink = t })

-- Nothing, or the front of the reply to the next request.
pub data Front (s : Standing) (part : List ℕ) : Type 0 where
  nothing : part ≡ [] → Front s part
  begun :
      {rounds : List Round} {after : List Received} {b : Agent} (round : Round)
      (request reply : Frame) (left : List ℕ)
      → s.rounds ≡ round ∷ rounds
      → read_frame s.input ≡ (Outcome.ok request, after)
      → handle_request round.system request s.agent ≡ (some reply, b)
      → wire_form reply ≡ part ++ left
      → Front s part

-- The rounds that have been served, why there are no more, and what lies on the wire: the replies,
-- each whole and in order, and then at most the front of the reply to the next request.
pub record Account (s : Standing) (r : Served) : Type 0 where
  pub log : List (Frame × Frame)
  pub last : Standing
  pub part : List ℕ
  pub serves : Serves s log last
  pub ends : Ends last.agent last.input last.sink last.rounds r
  pub sent : r.sink.wire ≡ s.sink.wire ++ (replies log ++ part)
  pub front : Front last part
