-- ===== src/Agent/Session.antt =====
-- A client's session: which requests HandleClient has answered and why it has ended, what is on
-- the wire, and what has become of the table.
use flume_ascend_host_bypass.Prelude.{
  ◌+◌, ◌-◌, ◌^◌, ◌<◌, ◌≡◌, refl, ap, sym, ◌∙◌, inl, inr, true, subst, none, some, List, [], ◌∷◌,
  ◌++◌, length, arith, Bool-cases, append_assoc, append-nil, if◌then◌else◌,
}
use flume_ascend_host_bypass.Protocol.Stream.{Received, Sink, Outcome}
use flume_ascend_host_bypass.Protocol.Frame.{Frame, read_frame, write_frame}
use flume_ascend_host_bypass.Protocol.Frame.RoundTrip.{
  wire_form, write_frame-ok, write_frame_prefix,
}
use flume_ascend_host_bypass.Agent.{Answer, handle_request}
use flume_ascend_host_bypass.Agent.Loop.{
  Round, left, Served, after_write, after_request, after_read, handle_client,
}
use flume_ascend_host_bypass.Agent.Table.{Agent}
use flume_ascend_host_bypass.Agent.Ids.{handle_request_next}
use flume_ascend_host_bypass.Agent.Invariant.{Inv, handle_request-Inv}
use flume_ascend_host_bypass.Agent.Account.{
  Trace, replies, Standing, Serves, Ends, all_served, stopped, unread, reading, unanswered, unsent,
  sending, nothing, begun, Account,
}

-- The rounds that are served leave a trace.
Serves-Trace :
    {s last : Standing} {log : List (Frame × Frame)}
    → Serves s log last
    → Trace s.agent log last.agent
Serves-Trace Serves.over = Trace.over
Serves-Trace (Serves.step round request reply on r h w rest) =
    Trace.step round.system request reply h (Serves-Trace rest)

-- No round is served, and nothing is written.
untouched :
    (s : Standing) (r : Served)
    → Ends s.agent s.input s.sink s.rounds r
    → r.sink.wire ≡ s.sink.wire
    → Account s r
untouched s r h e = record {
  log = [];
  last = s;
  part = [];
  serves = Serves.over;
  ends = h;
  sent = e ∙ sym (append-nil s.sink.wire);
  front = nothing refl;
}

module _ (round : Round) (rounds : List Round) (a : Agent) (input : List Received) (sink : Sink)
    (on : round.running ≡ true)
    (rest : (b : Agent) (i : List Received) (t : Sink)
      → Account
          (record { rounds = rounds; agent = b; input = i; sink = t })
          (handle_client rounds b i t)) where
  abbrev here : Standing
  here = record { rounds = round ∷ rounds; agent = a; input = input; sink = sink }

  module _ (request : Frame) (after : List Received)
      (heard : read_frame input ≡ (Outcome.ok request, after)) where
    begun_Account :
        (b : Agent) (reply : Frame) (t : Sink) (r : Served)
        → (write_frame reply sink).1 ≡ t
        → handle_request round.system request a ≡ (some reply, b)
        → r.sink ≡ t
        → Ends a input sink (round ∷ rounds) r
        → Account here r
    begun_Account b reply t r w e st h =
        let (part, left_over, p, q) = write_frame_prefix reply sink in
        record {
          log = [];
          last = here;
          part = part;
          serves = Serves.over;
          ends = h;
          sent = ap (λ x. x.wire) (st ∙ sym w) ∙ q;
          front = begun round request reply left_over refl heard e p;
        }

    write_Account :
        (b : Agent) (reply : Frame) (o : Outcome (Unit {0}) × Sink)
        → write_frame reply sink ≡ o
        → handle_request round.system request a ≡ (some reply, b)
        → Account here (after_write (handle_client rounds b after) b after o)
    unfolding after_write
    write_Account b reply (Outcome.ok tt, t) w e =
        let r = rest b after t in
        record {
          log = (request, reply) ∷ r.log;
          last = r.last;
          part = r.part;
          serves = Serves.step round request reply on heard e w r.serves;
          ends = r.ends;
          sent =
              r.sent
              ∙ ap (λ x. x ++ (replies r.log ++ r.part)) (write_frame-ok reply sink w).0
              ∙ append_assoc sink.wire (wire_form reply) (replies r.log ++ r.part)
              ∙ ap (◌++◌ sink.wire) (sym (append_assoc (wire_form reply) (replies r.log) r.part));
          front = r.front;
        }
    write_Account b reply (Outcome.err x, t) w e =
        begun_Account b reply t _ (ap (λ p. p.1) w) e refl
          (unsent round request reply x on heard e w)
    write_Account b reply (Outcome.waiting, t) w e =
        begun_Account b reply t _ (ap (λ p. p.1) w) e refl
          (sending round request reply on heard e w)

    request-Account :
        (r : Answer)
        → handle_request round.system request a ≡ r
        → Account here (after_request (handle_client rounds) after sink r)
    unfolding after_request
    request-Account (none, b) e = untouched here _ (unanswered round request on heard e) refl
    request-Account (some reply, b) e = write_Account b reply (write_frame reply sink) refl e

  read_Account :
      (o : Outcome Frame × List Received)
      → read_frame input ≡ o
      → Account here (after_read (handle_client rounds) round.system a sink o)
  unfolding after_read
  read_Account (Outcome.ok request, after) h =
      request-Account request after h (handle_request round.system request a) refl
  read_Account (Outcome.err e, after) h = untouched here _ (unread round e on h) refl
  read_Account (Outcome.waiting, after) h = untouched here _ (reading round on h) refl

-- For every list of rounds, agent, input and socket, HandleClient serves the first rounds, one
-- after the other: in each the agent runs, the next frame that ReadFrame gives from the input is
-- the request, the round's system answers it at the agent that the rounds before left, and the
-- reply is written whole. It serves no further round for one of these reasons, and leaves the
-- agent, the input and the socket as that one says: no rounds are left; the agent has stopped;
-- ReadFrame fails or waits; a call of the system does not return; the reply is not written whole.
-- What it leaves on the wire, beyond what was there, is the replies of the served rounds, each
-- whole and in order, and then at most the front of the reply to the request of the next round.
pub handle_client-Account :
    (rounds : List Round) (a : Agent) (input : List Received) (sink : Sink)
    → Account
        (record { rounds = rounds; agent = a; input = input; sink = sink })
        (handle_client rounds a input sink)
unfolding handle_client
handle_client-Account [] a input sink = untouched _ _ all_served refl
handle_client-Account (round ∷ rounds) a input sink =
    let here : Standing = record {
      rounds = round ∷ rounds;
      agent = a;
      input = input;
      sink = sink;
    } in
    let next = after_read (handle_client rounds) round.system a sink (read_frame input) in
    let halt : Served = record { ending = left; agent = a; input = input; sink = sink } in
    elim (Bool-cases round.running) [
      | inl on ↦
          subst (λ x. Account here (if x then next else halt)) (sym on)
            (read_Account round rounds a input sink on (handle_client-Account rounds)
              (read_frame input) refl)
      | inr off ↦
          subst (λ x. Account here (if x then next else halt)) (sym off)
            (untouched _ _ (stopped round off) refl)
    ]

-- Over any sequence of answered requests that starts at an agent with the invariant, and is short
-- enough that the ids do not reach 2 ^ 64 - 1, the invariant holds at the end: the ids in the table
-- differ and lie below the next one, and each descriptor has been obtained as often as it has been
-- closed or is held by the table.
pub Trace-Inv :
    {a c : Agent} {log : List (Frame × Frame)}
    → a.next_file_id + length log < 2 ^ 64 - 1
    → Trace a log c
    → Inv a
    → Inv c
Trace-Inv n Trace.over v = v
Trace-Inv {a} n (Trace.step {b = b} {log = log} sys request reply e t) v =
    Trace-Inv (omega (arith, ap (λ r. r.1.next_file_id) e, handle_request_next sys request a)) t (
      subst (λ r. Inv r.1) e
        (handle_request-Inv sys request a {reply = reply} (omega arith) v (ap (λ r. r.0) e)))
