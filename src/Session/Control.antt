-- ===== src/Session/Control.antt =====
-- tools.go: the tools that run the program: `continue`, `pause`, `step`, `wait-for-stop`, and the
-- context that they return.
pub mod Snapshot
pub mod Run
pub mod Awaits
pub mod Consumed
use mcp_dap_server_k8s_forwa.Prelude.{
  ℕ, ◌+◌, ℤ, pos, negsuc, String, List, [], ◌∷◌, ◌++◌, Option, none, some, Bool, true, false, ◌&&◌,
  not, if◌then◌else◌, str_eq, eqb_ℤ, ltb_ℤ,
}
use mcp_dap_server_k8s_forwa.Dap.Client.{Client}
use mcp_dap_server_k8s_forwa.Dap.Methods.{
  Sent, set_breakpoints_request, set_function_breakpoints_request, continue_request, pause_request,
  next_request, step_in_request, step_out_request,
}
use mcp_dap_server_k8s_forwa.Session.{
  Session, Env, Error, CtxError, deadline_exceeded, canceled, ctx, said, naming, timed_out,
  connection_lost, connection_stale, Waited, happened, lost, closed, gave_up, Result, ok, err, Tool,
  pure, throw, ◌>>=◌, ◌>>◌, get, modify, guard_started, validated, time_now, await_stop,
  thread_or_default,
}
use mcp_dap_server_k8s_forwa.Session.Control.Snapshot.{Context, get_full_context}

pub record BreakpointSpec : Type 0 where
  pub file : String
  pub line : ℤ
  pub function : String

-- The run-to-cursor breakpoint; a location that names neither a function nor a line sends nothing.
unfoldable pub set_cursor : Env → Option BreakpointSpec → Tool (Unit {0})
set_cursor env none = pure tt
set_cursor env (some to) =
    if not (str_eq to.function "")
    then validated env "unable to set run-to-cursor breakpoint"
        (set_function_breakpoints_request (to.function ∷ []))
    else (if not (str_eq to.file "") && ltb_ℤ (pos 0) to.line
        then validated env "unable to set run-to-cursor breakpoint"
            (set_breakpoints_request to.file (to.line ∷ []))
        else pure tt)

abbrev pub resume : Env → ℤ → Tool ℤ
resume env thread_id = do
  validated env "continue failed" (continue_request thread_id)
  pure thread_id

-- `continueExecution`: the thread that runs.
unfoldable pub continue_execution : Env → ℤ → Option BreakpointSpec → Tool ℤ
continue_execution env thread_id to = do
  guard_started
  set_cursor env to
  s ← get
  resume env (thread_or_default thread_id s)

-- `pauseExecution`
unfoldable pub pause_execution : Env → ℤ → Tool (Unit {0})
pause_execution env thread_id = do
  guard_started
  validated env "unable to pause execution" (pause_request thread_id)

-- What a tool that waits returns.
pub data Stop : Type 0 where
  at : Context → Stop
  program_terminated : Stop
  still_running : ℤ → Stop

abbrev pub stopped_at : ℤ → ℕ → Session → Session
stopped_at thread now s = record s { stopped_thread_id = thread; last_stop_at = now }

-- `if timeout <= 0 { timeout = 30 }`, and the bound of 300 where there is one.
unfoldable pub timeout_or_default : ℤ → ℤ
timeout_or_default t = if ltb_ℤ (pos 0) t then t else pos 30

unfoldable pub bounded_timeout : ℤ → ℤ
unfolding timeout_or_default
bounded_timeout t = let d = timeout_or_default t in if ltb_ℤ (pos 300) d then pos 300 else d

-- The context at the thread that has stopped, once the session has noted it.
abbrev pub context_at : Env → ℤ → Tool Stop
context_at env thread = do
  s ← get
  modify (stopped_at thread (time_now env s))
  c ← get_full_context env thread (pos 0) (pos 20)
  pure (at c)

abbrev pub note_termination : Env → Tool Stop
note_termination env = do
  s ← get
  modify (λ t. record t { last_stop_at = time_now env s })
  pure program_terminated

-- After the pause: the event's thread if there is one within two seconds, the paused thread if
-- there is none or the program has ended. (A `TerminatedEvent` goes to the default branch of the
-- switch, which returns a nil result with a nil error.)
abbrev pub after_pause : Env → ℤ → Waited (Option ℤ) → Tool (Option Stop)
after_pause env thread (happened (some t)) = do c ← context_at env t; pure (some c)
after_pause env thread (happened none) = pure none
after_pause env thread (lost m) = throw (connection_lost m)
after_pause env thread closed = throw connection_stale
after_pause env thread (gave_up deadline_exceeded) = do c ← context_at env thread; pure (some c)
after_pause env thread (gave_up canceled) = throw (ctx canceled)

abbrev pub pause_started : Env → ℤ → Tool (Option Stop)
pause_started env thread_id = do
  s ← get
  let thread = thread_or_default thread_id s
  validated env "unable to pause" (pause_request thread)
  t ← get
  after_pause env thread (await_stop env (time_now env s) t)

-- `pauseAndCaptureContext`: `none` is the nil result with a nil error.
unfoldable pub pause_and_capture : Env → ℤ → Tool (Option Stop)
pause_and_capture env thread_id = do guard_started; pause_started env thread_id

-- `WaitForStopParams`
pub record WaitParams : Type 0 where
  pub timeout_sec : ℤ
  pub pause_if_timeout : Bool
  pub thread_id : ℤ

abbrev pub after_wait : Env → WaitParams → Waited (Option ℤ) → Tool (Option Stop)
after_wait env p (happened (some t)) = do c ← context_at env t; pure (some c)
after_wait env p (happened none) = do c ← note_termination env; pure (some c)
after_wait env p (lost m) = throw (connection_lost m)
after_wait env p closed = throw connection_stale
after_wait env p (gave_up deadline_exceeded) =
    if p.pause_if_timeout
    then pause_and_capture env p.thread_id
    else pure (some (still_running (bounded_timeout p.timeout_sec)))
after_wait env p (gave_up canceled) = throw (ctx canceled)

-- `waitForStop`: it subscribes from the last stop that was consumed.
unfoldable pub wait_for_stop : Env → WaitParams → Tool (Option Stop)
wait_for_stop env p = do guard_started; s ← get; after_wait env p (await_stop env s.last_stop_at s)

pub data StepMode : Type 0 where
  over into out : StepMode

-- `switch input.Mode`
unfoldable pub step_mode : String → Option StepMode
step_mode m =
    if str_eq m "over"
    then some over
    else (if str_eq m "in" then some into else (if str_eq m "out" then some out else none))

abbrev pub step_request : StepMode → ℤ → Option String → Client → Sent
step_request over = next_request
step_request into = step_in_request
step_request out = step_out_request

abbrev pub after_step : Env → ℤ → Waited (Option ℤ) → Tool Stop
after_step env timeout (happened (some t)) = context_at env t
after_step env timeout (happened none) = note_termination env
after_step env timeout (lost m) = throw (connection_lost m)
after_step env timeout closed = throw connection_stale
after_step env timeout (gave_up deadline_exceeded) = throw (timed_out (timeout_or_default timeout))
after_step env timeout (gave_up canceled) = throw (ctx canceled)

abbrev pub step_with : Env → String → ℤ → ℤ → Option StepMode → Tool Stop
step_with env mode thread timeout none = throw (naming "invalid step mode" mode)
step_with env mode thread timeout (some m) = do
  s ← get
  validated env "step failed" (step_request m thread)
  t ← get
  after_step env timeout (await_stop env (time_now env s) t)

-- `step`: the instant is taken before the request is sent.
unfoldable pub step : Env → String → ℤ → ℤ → Tool Stop
unfolding step_mode
step env mode thread_id timeout = do
  guard_started
  s ← get
  step_with env mode (thread_or_default thread_id s) timeout (step_mode mode)
