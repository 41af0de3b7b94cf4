-- ===== src/Roce/Lifecycle.antt =====
-- src/roce_storage/roce_storage.cc: the life of a session, SessionLifecycle. A call that the state
-- does not allow answers false and leaves the lifecycle as it was.
pub mod Runs
use flume_ascend_host_bypass.Prelude.{
  ℕ, ◌≡◌, ◌≢◌, ◌↔◌, ◌⊎◌, inl, inr, refl, Bool, true, false, ◌&&◌, arith, ◌==◌, ◌!=◌, if◌then◌else◌,
}

pub data SessionState : Type 0 where
  created : SessionState
  local_resources_ready : SessionState
  bootstrapped : SessionState
  connected : SessionState
  request_in_flight : SessionState
  closed : SessionState
  failed : SessionState

pub record SessionLifecycle : Type 0 where
  pub state : SessionState
  pub active_request_id : ℕ

abbrev pub initial : SessionLifecycle
initial = record { state = SessionState.created; active_request_id = 0 }

-- Each call answers whether it was allowed, and the lifecycle after it.
abbrev Answer : Type 0
Answer = Bool × SessionLifecycle

refused : SessionLifecycle → Answer
refused s = (false, s)

allowed : SessionState → ℕ → Answer
allowed next id = (true, record { state = next; active_request_id = id })

unfoldable pub on_local_resources_ready : SessionLifecycle → Answer
unfolding refused allowed
on_local_resources_ready s = elim s.state [
  | SessionState.created ↦ allowed SessionState.local_resources_ready s.active_request_id
  | _ ↦ refused s
]

unfoldable pub on_bootstrapped : SessionLifecycle → Answer
unfolding refused allowed
on_bootstrapped s = elim s.state [
  | SessionState.local_resources_ready ↦ allowed SessionState.bootstrapped s.active_request_id
  | _ ↦ refused s
]

unfoldable pub on_connected : SessionLifecycle → Answer
unfolding refused allowed
on_connected s = elim s.state [
  | SessionState.bootstrapped ↦ allowed SessionState.connected s.active_request_id
  | _ ↦ refused s
]

unfoldable pub begin_request : ℕ → SessionLifecycle → Answer
unfolding refused allowed
begin_request id s = elim s.state [
  | SessionState.connected ↦
      if id == 0 then refused s else allowed SessionState.request_in_flight id
  | _ ↦ refused s
]

unfoldable pub complete_request : ℕ → SessionLifecycle → Answer
unfolding refused allowed
complete_request id s = elim s.state [
  | SessionState.request_in_flight ↦
      if id != s.active_request_id then refused s else allowed SessionState.connected 0
  | _ ↦ refused s
]

unfoldable pub fail : SessionLifecycle → Answer
unfolding refused allowed
fail s = elim s.state [ SessionState.closed ↦ refused s | _ ↦ allowed SessionState.failed 0 ]

unfoldable pub close : SessionLifecycle → Answer
unfolding refused allowed
close s = elim s.state [
  | SessionState.request_in_flight ↦ refused s
  | SessionState.closed ↦ refused s
  | _ ↦ allowed SessionState.closed 0
]

pub data Call : Type 0 where
  ready : Call
  bootstrap : Call
  connect : Call
  start : ℕ → Call
  complete : ℕ → Call
  break_down : Call
  shut : Call

unfoldable pub call : Call → SessionLifecycle → Answer
call Call.ready s = on_local_resources_ready s
call Call.bootstrap s = on_bootstrapped s
call Call.connect s = on_connected s
call (Call.start id) s = begin_request id s
call (Call.complete id) s = complete_request id s
call Call.break_down s = fail s
call Call.shut s = close s
