-- ===== src/Session/Lifecycle/Over.antt =====
-- tools.go: `stop`, and the other tools when it has returned.
use mcp_dap_server_k8s_forwa.Prelude.{
  ℕ, ℤ, pos, eqb_ℤ, if_false, if◌then◌else◌, ◌∙◌, String, Bool, ◌≡◌, refl, ap, List, none, some,
  false, Option-cases, Bool-cases, inl, inr, Option,
}
use mcp_dap_server_k8s_forwa.Dap.Methods.{disconnect_request}
use mcp_dap_server_k8s_forwa.Session.{
  Error, Session, Env, Result, thread_or_default, ok, err, not_started, Tool, ◌>>=◌, started,
  guard_started, validated,
}
use mcp_dap_server_k8s_forwa.Session.Steps.{bind-err}
use mcp_dap_server_k8s_forwa.Session.Calls.{validated-Kept}
use mcp_dap_server_k8s_forwa.Session.Points.{Params, breakpoint, clear_breakpoints}
use mcp_dap_server_k8s_forwa.Session.Points.Persist.{SameBooks, Kept-SameBooks}
use mcp_dap_server_k8s_forwa.Session.Control.{
  BreakpointSpec, WaitParams, continue_execution, pause_execution, wait_for_stop, step,
}
use mcp_dap_server_k8s_forwa.Session.Query.{
  ContextResult, context_of, failed_context, context, context_failed, evaluate_expression,
  set_variable, restart_debugger, info, disassemble_code,
}
use mcp_dap_server_k8s_forwa.Session.Control.Snapshot.{Context, get_full_context}
use mcp_dap_server_k8s_forwa.Session.Reconnecting.{Tick, reconnect, reconnect_with}
use mcp_dap_server_k8s_forwa.Session.Lifecycle.{
  Stopped, no_session, detached, session_stopped, detach_then_cleanup, cleanup,
  unregister_session_tools, stop, stop_with,
}

-- The tool fails with "debugger not started" and does nothing.
abbrev pub Refuses {ℓ} : {A : Type ℓ} → Tool A → Session → Type ℓ
Refuses m s = m s ≡ (err not_started, s)

refused {ℓ} :
    {A : Type ℓ} (f : Unit {0} → Tool A) (s : Session)
    → s.client ≡ none
    → Refuses (guard_started >>= f) s
refused f s h = bind-err guard_started f s not_started (ap started h)

-- Every tool but `debug` and `stop` refuses to work. `context` reports the error in its result, and
-- `mentions_thread` is its test on the error's text, which is "debugger not started".
pub record IsIdle (s : Session) : Type 0 where
  pub no_breakpoint : (env : Env) (p : Params) → Refuses (breakpoint env p) s
  pub no_clear :
      (env : Env) (file : String) (everything : Bool)
      → Refuses (clear_breakpoints env file everything) s
  pub no_continue :
      (env : Env) (thread : ℤ) (to : Option BreakpointSpec)
      → Refuses (continue_execution env thread to) s
  pub no_pause : (env : Env) (thread : ℤ) → Refuses (pause_execution env thread) s
  pub no_wait : (env : Env) (p : WaitParams) → Refuses (wait_for_stop env p) s
  pub no_step :
      (env : Env) (mode : String) (thread timeout : ℤ) → Refuses (step env mode thread timeout) s
  pub no_evaluate :
      (env : Env) (expression : String) (frame : Option ℤ) (context : String)
      → Refuses (evaluate_expression env expression frame context) s
  pub no_set_variable :
      (env : Env) (variables : ℤ) (name value : String)
      → Refuses (set_variable env variables name value) s
  pub no_restart : (env : Env) (args : List String) → Refuses (restart_debugger env args) s
  pub no_info : (env : Env) (kind : String) → Refuses (info env kind) s
  pub no_context :
      (mentions_thread : Error → Bool) (env : Env) (thread frame frames : ℤ)
      → mentions_thread not_started ≡ false
      → context mentions_thread env thread frame frames s
        ≡ (ok (context_failed not_started none), s)
  pub no_reconnect :
      (force : Bool) (timeout : ℤ) (start : ℕ) (ticks : List Tick)
      → reconnect force timeout start ticks s ≡ (some (err not_started), s)
  pub no_disassemble :
      (env : Env) (address : String) (offset count : ℤ)
      → Refuses (disassemble_code env address offset count) s

no_full_context :
    (env : Env) (thread frame frames : ℤ) (s : Session)
    → s.client ≡ none
    → Refuses (get_full_context env thread frame frames) s
unfolding get_full_context
no_full_context env thread frame frames s h = bind-err guard_started _ s not_started (ap started h)

context-refused :
    (mentions_thread : Error → Bool) (env : Env) (thread frame frames : ℤ) (s : Session)
    → s.client ≡ none
    → mentions_thread not_started ≡ false
    → context mentions_thread env thread frame frames s ≡ (ok (context_failed not_started none), s)
unfolding context
context-refused mentions_thread env thread frame frames s h unmentioned =
    let n = if eqb_ℤ frames (pos 0) then pos 20 else frames in
    ap
      (λ (p : Result Context × Session). elim p.0 [
        | ok c ↦ (ok (context_of c), p.1)
        | err e ↦ failed_context mentions_thread env e p.1
      ])
      (no_full_context env (thread_or_default thread s) frame n s h)
    ∙ ap (λ (f : Tool ContextResult). f s) (if_false _ _ unmentioned)

no_client-IsIdle : (s : Session) → s.client ≡ none → IsIdle s
unfolding breakpoint clear_breakpoints continue_execution pause_execution wait_for_stop step
    evaluate_expression set_variable restart_debugger info disassemble_code reconnect
no_client-IsIdle s h = record {
  no_breakpoint = λ env p. refused _ s h;
  no_clear = λ env file everything. refused _ s h;
  no_continue = λ env thread to. refused _ s h;
  no_pause = λ env thread. refused _ s h;
  no_wait = λ env p. refused _ s h;
  no_step = λ env mode thread timeout. refused _ s h;
  no_evaluate = λ env expression frame context. refused _ s h;
  no_set_variable = λ env variables name value. refused _ s h;
  no_restart = λ env args. refused _ s h;
  no_info = λ env kind. refused _ s h;
  no_context = λ mentions_thread env thread frame frames h'.
      context-refused mentions_thread env thread frame frames s h h';
  no_reconnect = λ force timeout start ticks. rw (h, reconnect_with) refl;
  no_disassemble = λ env address offset count. refused _ s h;
}

-- The session is over: no client and no process, and the books are those of `s`.
abbrev pub IsEnded : Session → Session → Type 0
IsEnded s t = (t.client ≡ none) × (t.cmd ≡ none) × SameBooks s t

cleanup-IsEnded : (s t : Session) → SameBooks s t → IsEnded s (cleanup t)
unfolding cleanup unregister_session_tools
cleanup-IsEnded s t b = (refl, refl, b)

stop-IsEnded :
    (env : Env) (detach : Bool) (s : Session)
    → ((r : Stopped) × ((stop env detach s).0 ≡ ok r)) × IsEnded s (stop env detach s).1
unfolding stop stop_with detach_then_cleanup
stop-IsEnded env detach s = elim (Option-cases s.client) [
  | inl e ↦ elim (Option-cases s.cmd) [
    | inl c ↦ rw (e, stop_with, c) ((no_session, refl), (e, c, (refl, refl)))
    | inr (p, c) ↦ rw (e, stop_with, c) ((session_stopped, refl), cleanup-IsEnded s s (refl, refl))
  ]
  | inr (c, e) ↦ elim (Bool-cases detach) [
    | inl d ↦
        let m = disconnect_request false in
        let k =
          Kept-SameBooks s (validated env "disconnect" m s).1
            (validated-Kept env "disconnect" m s) in
        rw (e, stop_with, d)
          ((detached, refl), cleanup-IsEnded s (validated env "disconnect" m s).1 k)
    | inr d ↦ rw (e, stop_with, d) ((session_stopped, refl), cleanup-IsEnded s s (refl, refl))
  ]
]

-- `stop` never fails, whether it detaches or not, whatever becomes of the disconnect request, and
-- whether there is a session or none. Afterwards there is no client and no process, the stored
-- breakpoints are as they were, and every tool but `debug` and `stop`, with any parameters, changes
-- nothing and fails with "debugger not started". `context` returns that error in its
-- result, if its test does not take the error's text to mention a thread.
pub stop-IsIdle :
    (env : Env) (detach : Bool) (s : Session)
    → ((r : Stopped) × ((stop env detach s).0 ≡ ok r))
      × IsEnded s (stop env detach s).1
      × IsIdle (stop env detach s).1
stop-IsIdle env detach s =
    let (r, e) = stop-IsEnded env detach s in (r, e, no_client-IsIdle (stop env detach s).1 e.0)
