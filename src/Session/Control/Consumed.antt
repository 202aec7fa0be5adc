-- ===== src/Session/Control/Consumed.antt =====
-- tools.go: which stop `wait-for-stop` consumes, and what later waits see.
use mcp_dap_server_k8s_forwa.Prelude.{ℕ, ◌≡◌, refl, ap, ◌∙◌, ℤ, pos, List, ◌++◌, keep, keep_last}
use mcp_dap_server_k8s_forwa.Dap.Message.{Event}
use mcp_dap_server_k8s_forwa.Dap.Bus.{Bus, stopped_type, RingEntry, event_buf_size}
use mcp_dap_server_k8s_forwa.Dap.Bus.Replay.{wanted, events}
use mcp_dap_server_k8s_forwa.Dap.Waits.First.{of_type}
use mcp_dap_server_k8s_forwa.Dap.Client.{Client}
use mcp_dap_server_k8s_forwa.Dap.Methods.{stack_trace_request}
use mcp_dap_server_k8s_forwa.Dap.Message.{StackFrame}
use mcp_dap_server_k8s_forwa.Session.{
  Session, Env, Tool, pure, ◌>>=◌, ◌>>◌, modify, guard_started, wrapping, typed_call, time_now,
}
use mcp_dap_server_k8s_forwa.Session.Steps.{bind-state}
use mcp_dap_server_k8s_forwa.Session.Calls.{Kept, typed_call-Kept}
use mcp_dap_server_k8s_forwa.Session.Control.{WaitParams, stopped_at}
use mcp_dap_server_k8s_forwa.Session.Control.Snapshot.{
  Context, frames_body, get_full_context, target_frame, write_scopes_and_variables,
}
use mcp_dap_server_k8s_forwa.Session.Query.Frame.{write_scopes-Kept}

-- Fetching a context changes neither the thread nor the instant of the last stop.
abbrev pub SameStop : Session → Session → Type 0
SameStop s t = (t.stopped_thread_id ≡ s.stopped_thread_id) × (t.last_stop_at ≡ s.last_stop_at)

Kept-SameStop : (s t : Session) → Kept s t → SameStop s t
Kept-SameStop s t (c, e) = (ap (λ t. t.stopped_thread_id) e, ap (λ t. t.last_stop_at) e)

pub SameStop-trans : (s t u : Session) → SameStop s t → SameStop t u → SameStop s u
SameStop-trans s t u (a, b) (c, d) = (c ∙ a, d ∙ b)

pub get_full_context-SameStop :
    (env : Env) (thread frame n : ℤ) (s : Session)
    → SameStop s (get_full_context env thread frame n s).1
unfolding get_full_context
get_full_context-SameStop env thread frame n s =
    let m =
      wrapping "unable to get stack trace"
        (typed_call env frames_body (stack_trace_request thread (pos 0) n)) in
    let scopes : List StackFrame → Tool Context = λ fs.
      write_scopes_and_variables env (target_frame frame fs) >>= λ o.
      pure (record { frames = fs; scopes = o }) in
    let note : List StackFrame → Session → Session =
      λ fs x. record x { last_frame_id = target_frame frame fs } in
    let rest : List StackFrame → Tool Context = λ fs. modify (note fs) >> scopes fs in
    let k =
      Kept-SameStop s (m s).1
        (typed_call-Kept env frames_body (stack_trace_request thread (pos 0) n) s) in
    bind-state guard_started (λ _. m >>= rest) s (SameStop s) (refl, refl)
      (λ _ _. bind-state m rest s (SameStop s) k (λ fs e.
        let t = note fs (m s).1 in
        let q =
          SameStop-trans s t (write_scopes_and_variables env (target_frame frame fs) t).1 k
            (Kept-SameStop t _ (write_scopes-Kept env (target_frame frame fs) t)) in
        bind-state (write_scopes_and_variables env (target_frame frame fs))
          (λ o. pure (record { frames = fs; scopes = o })) t (SameStop s) q (λ o f. q)))

-- The stops that a wait from `since` on can take: those of its time among the last 64 events that
-- were dispatched before it subscribed, then those that come.
abbrev pub stops : ℕ → List RingEntry → List Event → List Event
stops since history comes =
    events (keep (wanted stopped_type since) (keep_last event_buf_size history))
    ++ of_type stopped_type comes

module _ (env : Env) (p : WaitParams) (s : Session) (c : Client) (thread : ℤ) where
  -- The session when the wait has ended in a stop.
  noted : Session
  noted = stopped_at thread (time_now env s) s
