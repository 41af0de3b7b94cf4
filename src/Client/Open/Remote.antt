-- ===== src/Client/Open/Remote.antt =====
-- Opening a client against the storage agent that answers its HELLO.
use flume_ascend_host_bypass.Prelude.{
  ℕ, ◌≡◌, refl, ap, sym, ◌∙◌, subst, some, List, [], ◌++◌, length, arith,
}
use flume_ascend_host_bypass.Prelude.Text.{codes}
use mathlib.Core.Option.{some-injective}
use flume_ascend_host_bypass.Protocol.Words.{be32, append_u32, load_u32}
use flume_ascend_host_bypass.Protocol.Reader.{reader, read_raw, read_u32, read_string}
use flume_ascend_host_bypass.Protocol.Stream.{Received, Sink, ok}
use flume_ascend_host_bypass.Protocol.FrameType
use flume_ascend_host_bypass.Protocol.Frame.{Frame, IsFrame, write_frame}
use flume_ascend_host_bypass.Storage.System.{System}
use flume_ascend_host_bypass.Agent.{append_string, handle_request}
use flume_ascend_host_bypass.Agent.Table.{Agent}
use flume_ascend_host_bypass.Client.Status
use flume_ascend_host_bypass.Client.Files.{returned}
use flume_ascend_host_bypass.Client.Files.Remote.{Carries, exchange-Carries}
use flume_ascend_host_bypass.Client.Open.{
  connected, hello_ack, greeted, after_hello, client_name, flume_client_open,
}

abbrev hello : Frame
hello = record { type = FrameType.hello; request_id = 1; body = append_string [] client_name }

abbrev capabilities : List ℕ
capabilities = codes "mock,hccl-hcomm-planned"

abbrev ack : Frame
ack = record {
  type = FrameType.hello_ack;
  request_id = 1;
  body = be32 0 ++ (be32 (length capabilities) ++ capabilities);
}

handle_request-hello : (sys : System) (a : Agent) → (handle_request sys hello a).0 ≡ some ack
unfolding handle_request append_string append_u32
handle_request-hello sys a = refl

-- Where the HELLO of a client is written whole, the agent answers it, and the answer is carried to
-- the client in any chunks, flume_client_open returns FLUME_OK and a client whose next request has
-- the number 2.
flume_client_open-handle_request :
    (sys : System) (a : Agent) (sink sent : Sink) (reply : Frame) {input after : List Received}
    → write_frame hello sink ≡ (ok tt, sent)
    → (handle_request sys hello a).0 ≡ some reply
    → Carries reply input after
    → flume_client_open (connected sink input)
      ≡ returned Status.ok (some (record { next_request_id = 2; sink = sent; input = after }))
unfolding flume_client_open after_hello hello_ack greeted reader read_u32 read_string read_raw
    load_u32
flume_client_open-handle_request sys a sink sent reply {input} {after} w answered arrives =
    let same : reply ≡ ack = some-injective _ _ (sym answered ∙ handle_request-hello sys a) in
    let fine : IsFrame ack = record {
      type_fits = omega arith;
      id_fits = omega arith;
      body_fits = omega arith;
    } in
    let heard =
      exchange-Carries FrameType.hello (append_string [] client_name)
        (record { next_request_id = 1; sink = sink; input = input }) sent ack w fine
        (subst (λ f. Carries f input after) same arrives) in
    ap after_hello heard ∙ refl
