-- ===== src/Client/Open.antt =====
-- src/core/client.cc: opening a client, and waiting for a request.
pub mod Remote
use flume_ascend_host_bypass.Prelude.{
  ℕ, ◌%◌, ◌^◌, ◌≡◌, refl, ap, sym, ◌∙◌, subst, Option, none, some, List, [], ◌++◌, Bool, length,
  arith, ◌!=◌, if◌then◌else◌, append-nil,
}
use flume_ascend_host_bypass.Prelude.Text.{codes}
use flume_ascend_host_bypass.Protocol.Words.{IsU64, be32, append_u32}
use flume_ascend_host_bypass.Protocol.Reader.{
  Reader, M, continue, ◌>>=◌, return, reader, read_u32, read_string,
}
use flume_ascend_host_bypass.Protocol.Stream.{Received, Sink, ok}
use flume_ascend_host_bypass.Protocol.FrameType
use flume_ascend_host_bypass.Protocol.Frame.{Frame}
use flume_ascend_host_bypass.Agent.{append_string}
use flume_ascend_host_bypass.Client.Status
use flume_ascend_host_bypass.Client.Io.{Io}
use flume_ascend_host_bypass.Client.Files.{
  Connection, Exchange, unsent, unread, answer, Returned, returned, exchange,
}

-- What ConnectEndpoint ends with: a status, or a socket.
pub data Connected : Type 0 where
  refused : ℕ → Connected
  connected : Sink → List Received → Connected

unfoldable pub hello_ack : M (ℕ × List ℕ)
hello_ack = do status ← read_u32; capabilities ← read_string; return (status, capabilities)

unfoldable pub greeted : Connection → Option (ℕ × List ℕ) × Reader → Returned Connection
greeted c (none, r) = returned Status.protocol none
greeted c (some (status, capabilities), r) =
    if status != Status.ok then returned status none else returned Status.ok (some c)

unfoldable pub after_hello : Exchange × Connection → Returned Connection
unfolding hello_ack greeted
after_hello (unsent e, c) = returned Status.io_error none
after_hello (unread e, c) = returned Status.protocol none
after_hello (answer f, c) =
    if f.type != FrameType.hello_ack
    then returned Status.protocol none
    else greeted c (hello_ack (reader f.body))
after_hello (Exchange.waiting, c) = Returned.waiting

abbrev pub client_name : List ℕ
client_name = codes "flume-client"

-- A client that is not returned is closed.
unfoldable pub flume_client_open : Connected → Returned Connection
unfolding after_hello
flume_client_open (refused status) = returned status none
flume_client_open (connected sink input) = after_hello (
    exchange FrameType.hello (append_string [] client_name)
      (record { next_request_id = 1; sink = sink; input = input }))

-- How long a caller waits for a request: a negative time, 0, or a positive time.
pub data Timeout : Type 0 where
  forever : Timeout
  at_once : Timeout
  some_time : Timeout

pub data Waited : Type 0 where
  ended : ℕ → Waited
  waiting : Waited

-- The request when it is done, if that happens in the time that the caller gives.
still_pending : Timeout → Option Io → Waited
still_pending at_once later = ended Status.timeout
still_pending forever (some io) = ended io.status
still_pending forever none = Waited.waiting
still_pending some_time (some io) = ended io.status
still_pending some_time none = ended Status.timeout

unfoldable pub flume_wait : Timeout → Io → Option Io → Waited
unfolding still_pending
flume_wait timeout io later = if io.done then ended io.status else still_pending timeout later
