-- ===== src/Roce/Lifecycle/Runs.antt =====
-- The lifecycle over any sequence of calls.
use flume_ascend_host_bypass.Prelude.{
  ap, ◌∙◌, ℕ, ◌≡◌, ◌≢◌, ◌⊎◌, inr, refl, Bool, true, false, Option, none, some, List, [], ◌∷◌, arith,
}
use flume_ascend_host_bypass.Roce.Lifecycle.{
  SessionState, SessionLifecycle, initial, Answer, Call, call, on_local_resources_ready,
  on_bootstrapped, on_connected, begin_request, complete_request, fail, close,
}

-- A lifecycle, and the last call that it allowed.
pub record Run : Type 0 where
  pub now : SessionLifecycle
  pub last : Option Call

unfoldable pub next : Call → Run → Answer → Run
next c r (true, s) = record { now = s; last = some c }
next c r (false, s) = record { now = s; last = r.last }

-- The calls in order, the first of the list first.
unfoldable pub run : List Call → Run → Run
unfolding next
run [] r = r
run (c ∷ calls) r = run calls (next c r (call c r.now))

abbrev pub begin : Run
begin = record { now = initial; last = none }

is_in_flight : SessionState → Bool
is_in_flight SessionState.request_in_flight = true
is_in_flight _ = false

-- A request is in flight exactly where its number is kept, and then it was the last call.
unfoldable pub IsSound : Run → Type 0
unfolding is_in_flight
IsSound r =
    ((is_in_flight r.now.state ≡ true)
      × ((r.now.active_request_id ≢ 0) × (r.last ≡ some (Call.start r.now.active_request_id))))
    ⊎ ((is_in_flight r.now.state ≡ false) × (r.now.active_request_id ≡ 0))

next-IsSound :
    (c : Call) (s : SessionState) (id : ℕ) (l : Option Call)
    → IsSound (record { now = record { state = s; active_request_id = id }; last = l })
    → IsSound (
        next c
          (record { now = record { state = s; active_request_id = id }; last = l })
          (call c (record { state = s; active_request_id = id })))
unfolding IsSound is_in_flight next call on_local_resources_ready on_bootstrapped on_connected
    begin_request complete_request fail close
next-IsSound c s id l h = ground arith

-- Any sequence of calls keeps a session sound: while a request is in flight, its id is not 0 and is
-- the active one, and its start is the last call that was allowed; in every other state the active
-- id is 0.
pub run-IsSound : (calls : List Call) (r : Run) → IsSound r → IsSound (run calls r)
unfolding run
run-IsSound [] r h = h
run-IsSound (c ∷ calls) r h =
    run-IsSound calls _ (next-IsSound c r.now.state r.now.active_request_id r.last h)

pub begin-IsSound : IsSound begin
unfolding IsSound is_in_flight
begin-IsSound = inr (refl, refl)

completed :
    (id : ℕ) (r : Run)
    → IsSound r
    → (call (Call.complete id) r.now).0 ≡ true
    → r.last ≡ some (Call.start id)
unfolding IsSound is_in_flight call complete_request
completed id r h e = ground arith

-- After any calls on a new session, the completion of a request is allowed only if the last call
-- that was allowed is the start of that same request.
pub complete_request-last :
    (calls : List Call) (id : ℕ)
    → (call (Call.complete id) (run calls begin).now).0 ≡ true
    → (run calls begin).last ≡ some (Call.start id)
complete_request-last calls id h =
    completed id (run calls begin) (run-IsSound calls begin begin-IsSound) h

next_closed :
    (c : Call) (id : ℕ) (l : Option Call)
    → next c
        (record { now = record { state = SessionState.closed; active_request_id = id }; last = l })
        (call c (record { state = SessionState.closed; active_request_id = id }))
      ≡ record { now = record { state = SessionState.closed; active_request_id = id }; last = l }
unfolding next call on_local_resources_ready on_bootstrapped on_connected begin_request
    complete_request fail close
next_closed c id l = ground arith

-- A session that is closed stays as it is under any sequence of calls.
run_closed :
    (calls : List Call) (id : ℕ) (l : Option Call)
    → run calls
        (record { now = record { state = SessionState.closed; active_request_id = id }; last = l })
      ≡ record { now = record { state = SessionState.closed; active_request_id = id }; last = l }
unfolding run
run_closed [] id l = refl
run_closed (c ∷ calls) id l = ap (run calls) (next_closed c id l) ∙ run_closed calls id l
