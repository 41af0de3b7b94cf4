-- ===== src/Agent/Tests.antt =====
-- The properties of the agent, applied to the sample system: a file is open under the id 1.
use flume_ascend_host_bypass.Prelude.{◌≡◌, refl, true, some, List, [], ◌∷◌, take, drop, arith}
use flume_ascend_host_bypass.Protocol.FrameType
use flume_ascend_host_bypass.Protocol.Words.{append_u32}
use flume_ascend_host_bypass.Protocol.Frame.{Frame}
use flume_ascend_host_bypass.Protocol.Stream.{Received, got, took, Sink}
use flume_ascend_host_bypass.Protocol.Reader.{read_u64, read_raw, reader, done}
use flume_ascend_host_bypass.Storage.PosixFile.{read, read_loop}
use flume_ascend_host_bypass.Storage.PosixFile.Balance.{count}
use flume_ascend_host_bypass.Storage.Samples.{
  system, content, preads-IsPread, preads-IsBounded, system-IsBrief,
}
use flume_ascend_host_bypass.Agent.Samples.{file, agent, req, req-IsReadReq}
use flume_ascend_host_bypass.Agent.Table.{find, stop}
use flume_ascend_host_bypass.Agent.Invariant.{Inv, stop_balanced}
use flume_ascend_host_bypass.Agent.Replies.{read_request, payload_body, handle_request-read}
use flume_ascend_host_bypass.Agent.Shape.{IsReply, handle_request-IsReply}
use flume_ascend_host_bypass.Agent.Account.{Account, Trace}
use flume_ascend_host_bypass.Agent.Session.{Trace-Inv, handle_client-Account}
use flume_ascend_host_bypass.Agent.{handle_request}
use flume_ascend_host_bypass.Agent.Loop.{Round, handle_client}

agent-Inv : Inv agent
unfolding find
agent-Inv = record { fresh = (omega arith, refl, tt); balanced = λ x. omega arith }

handle_request-read_example :
    ((handle_request system (read_request 40 req) agent).0
      ≡ some (record {
        type = FrameType.read_resp;
        request_id = 40;
        body = payload_body (take 3 (drop 2 content));
      }))
    × ((handle_request system (read_request 40 req) agent).1.files ≡ agent.files)
unfolding find read read_loop
handle_request-read_example =
    handle_request-read system agent 40 req file 9 content req-IsReadReq (omega arith) (omega arith)
      refl refl preads-IsPread refl

handle_request-IsReply_example :
    IsReply FrameType.read_resp 40 (handle_request system (read_request 40 req) agent)
handle_request-IsReply_example =
    handle_request-IsReply system-IsBrief preads-IsBounded (read_request 40 req) agent

abbrev close_request : Frame
close_request = record {
  type = FrameType.close_req;
  request_id = 41;
  body = 0 ∷ 0 ∷ 0 ∷ 0 ∷ 0 ∷ 0 ∷ 0 ∷ 1 ∷ [];
}

abbrev closed : Frame
closed = record {
  type = FrameType.close_resp;
  request_id = 41;
  body = 0 ∷ 0 ∷ 0 ∷ 0 ∷ 0 ∷ 0 ∷ 0 ∷ 0 ∷ [];
}

stop_balanced_example :
    count 5 (stop agent).descriptors.obtained ≡ count 5 (stop agent).descriptors.closed
stop_balanced_example = stop_balanced agent 5 agent-Inv

Trace-Inv_example : Inv (handle_request system close_request agent).1
unfolding handle_request read_u64 read_raw reader done append_u32
Trace-Inv_example =
    Trace-Inv (omega arith) (Trace.step {a = agent} system close_request closed refl Trace.over)
      agent-Inv

abbrev hello : List Received
hello =
    got (
      70 ∷ 76 ∷ 85 ∷ 77 ∷ 0 ∷ 1 ∷ 0 ∷ 1 ∷ 0 ∷ 0 ∷ 0 ∷ 0 ∷ 0 ∷ 0 ∷ 0 ∷ 0 ∷ 0 ∷ 0 ∷ 0 ∷ 5 ∷ 0 ∷ 0 ∷ 0
      ∷ 0 ∷ 0 ∷ 0 ∷ 0 ∷ 0 ∷ [])
    ∷ []

abbrev socket : Sink
socket = record { answers = took 28 ∷ took 31 ∷ []; wire = [] }

abbrev rounds : List Round
rounds = record { running = true; system = system } ∷ []

handle_client-Account_example :
    Account
      (record { rounds = rounds; agent = agent; input = hello; sink = socket })
      (handle_client rounds agent hello socket)
handle_client-Account_example = handle_client-Account rounds agent hello socket
