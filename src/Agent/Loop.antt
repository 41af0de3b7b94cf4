-- ===== src/Agent/Loop.antt =====
-- src/agent/storage_agent.cc: the loop of HandleClient, which reads a frame, answers it and writes
-- the answer.
use flume_ascend_host_bypass.Prelude.{Bool, none, some, List, [], ◌∷◌, if◌then◌else◌}
use flume_ascend_host_bypass.Protocol.Frame.{Frame, read_frame, write_frame}
use flume_ascend_host_bypass.Protocol.Stream.{Received, Sink, Outcome}
use flume_ascend_host_bypass.Storage.System.{System}
use flume_ascend_host_bypass.Agent.{Answer, handle_request}
use flume_ascend_host_bypass.Agent.Table.{Agent}

-- One round of the loop of HandleClient: whether the agent is running, and the system's calls.
pub record Round : Type 0 where
  pub running : Bool
  pub system : System

pub data Ending : Type 0 where
  -- The loop has ended.
  left : Ending
  -- A call has not returned.
  pending : Ending
  -- The rounds that were looked at are over, and the loop goes on.
  going : Ending

pub record Served : Type 0 where
  pub ending : Ending
  pub agent : Agent
  pub input : List Received
  pub sink : Sink

unfoldable pub after_write :
    (Sink → Served) → Agent → List Received → Outcome (Unit {0}) × Sink → Served
after_write go_on agent input (Outcome.ok _, sink) = go_on sink
after_write go_on agent input (Outcome.err e, sink) = record {
  ending = left;
  agent = agent;
  input = input;
  sink = sink;
}
after_write go_on agent input (Outcome.waiting, sink) = record {
  ending = pending;
  agent = agent;
  input = input;
  sink = sink;
}

unfoldable pub after_request :
    (Agent → List Received → Sink → Served) → List Received → Sink → Answer → Served
unfolding after_write
after_request go_on input sink (none, agent) = record {
  ending = pending;
  agent = agent;
  input = input;
  sink = sink;
}
after_request go_on input sink (some reply, agent) =
    after_write (go_on agent input) agent input (write_frame reply sink)

unfoldable pub after_read :
    (Agent → List Received → Sink → Served)
    → System
    → Agent
    → Sink
    → Outcome Frame × List Received
    → Served
unfolding after_request
after_read go_on sys agent sink (Outcome.ok request, input) =
    after_request go_on input sink (handle_request sys request agent)
after_read go_on sys agent sink (Outcome.err e, input) = record {
  ending = left;
  agent = agent;
  input = input;
  sink = sink;
}
after_read go_on sys agent sink (Outcome.waiting, input) = record {
  ending = pending;
  agent = agent;
  input = input;
  sink = sink;
}

-- HandleClient.
unfoldable pub handle_client : List Round → Agent → List Received → Sink → Served
unfolding after_read
handle_client [] agent input sink = record {
  ending = going;
  agent = agent;
  input = input;
  sink = sink;
}
handle_client (round ∷ rounds) agent input sink =
    let next = after_read (handle_client rounds) round.system agent sink (read_frame input) in
    if round.running
    then next
    else record { ending = left; agent = agent; input = input; sink = sink }
