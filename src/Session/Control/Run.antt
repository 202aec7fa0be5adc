-- ===== src/Session/Control/Run.antt =====
-- Timeouts, run-to-cursor, and the pause of a program that ends.
use mcp_dap_server_k8s_forwa.Prelude.{
  ℕ, ◌+◌, ℤ, pos, negsuc, ◌≡◌, ◌⊎◌, refl, sym, ap, ◌∙◌, String, List, [], ◌∷◌, ◌++◌, append_assoc,
  arith, Option, none, some, true, false, if_true, str_eq, eq_refl, lt→ltb, subst, ltb_ℤ, ltb,
  Bool-cases, inl, inr,
}
use mcp_dap_server_k8s_forwa.Dap.Request
use mcp_dap_server_k8s_forwa.Dap.Request.{Command}
use mcp_dap_server_k8s_forwa.Dap.Methods.{set_breakpoints_request, continue_request, pause_request}
use mcp_dap_server_k8s_forwa.Session.{
  Session, Env, ok, Tool, pure, ◌>>=◌, ◌>>◌, get, guard_started, validated, thread_or_default,
  happened, started, time_now, await_stop,
}
use mcp_dap_server_k8s_forwa.Session.Steps.{bind-inv, bind-ok}
use mcp_dap_server_k8s_forwa.Session.Calls.{
  commands, Kept, validated-Kept, validated-commands, request-Sends, Sends,
}
use mcp_dap_server_k8s_forwa.Session.Points.Store.{set_breakpoints-Sends}
use mcp_dap_server_k8s_forwa.Session.Reinit.Adapter.{Adapter, execute_all}
use mcp_dap_server_k8s_forwa.Session.Control.{
  BreakpointSpec, set_cursor, resume, continue_execution, timeout_or_default, bounded_timeout, Stop,
  after_pause, pause_started, pause_and_capture,
}

-- The timeout of `wait-for-stop` is at least 1 and at most 300 seconds, whatever is asked for, and
-- is what is asked for if that is in range.
pub bounded_timeout-bounds :
    (t : ℤ)
    → let d = bounded_timeout t in
      (ltb_ℤ (pos 0) d ≡ true)
      × (ltb_ℤ (pos 300) d ≡ false)
      × ((d ≡ t) ⊎ (ltb_ℤ (pos 0) t ≡ false) ⊎ (ltb_ℤ (pos 300) t ≡ true))
unfolding bounded_timeout timeout_or_default
bounded_timeout-bounds (negsuc n) = (refl, refl, inr (inl refl))
bounded_timeout-bounds (pos n) = elim (Bool-cases (ltb 0 n)) [
  | inl e ↦ elim (Bool-cases (ltb 300 n)) [
    | inl f ↦ rw (e, f) (refl, refl, inr (inr refl))
    | inr f ↦ rw (e, f, e, f) (refl, refl, inl refl)
  ]
  | inr e ↦ rw e (refl, refl, inr (inl refl))
]

continue_request-Sends : (d : ℤ) → Sends (Request.continues d) (continue_request d)
unfolding continue_request
continue_request-Sends d = request-Sends _

abbrev go_on : Env → ℤ → Tool ℤ
go_on env thread = get >>= λ s. resume env (thread_or_default thread s)

-- A `continue` that succeeds has set its cursor and has sent the request.
continue_execution-inv :
    (env : Env) (thread u : ℤ) (to : Option BreakpointSpec) (s : Session)
    → (continue_execution env thread to s).0 ≡ ok u
    → let t = (set_cursor env to s).1 in
      ((set_cursor env to s).0 ≡ ok tt)
      × (commands (continue_execution env thread to s).1
          ≡ commands t ++ (Request.continues (thread_or_default thread t) ∷ []))
      × Kept t (continue_execution env thread to s).1
unfolding continue_execution
continue_execution-inv env thread u to s k =
    let rest : Unit {0} → Tool ℤ = λ _. set_cursor env to >> go_on env thread in
    let (x, e, p) = bind-inv guard_started rest s u k in
    let q = p in
    let (y, f, r) =
      bind-inv (set_cursor env to) (λ _. go_on env thread) s u (sym (ap (λ w. w.0) q) ∙ k) in
    let t = (set_cursor env to s).1 in
    let d = thread_or_default thread t in
    let m = continue_request d in
    let c = validated env "continue failed" m in
    let (z, g, w) = bind-inv c (λ _. pure d) t u (sym (ap (λ w. w.0) (q ∙ r)) ∙ k) in
    let final : (continue_execution env thread to s).1 ≡ (c t).1 = ap (λ w. w.1) (q ∙ r ∙ w) in
    (
      f,
      ap commands final
          ∙ validated-commands env "continue failed" _ m t (continue_request-Sends d) g,
      subst (Kept t) (sym final) (validated-Kept env "continue failed" m t),
    )

set_cursor-line :
    (env : Env) (n : ℕ) (file : String)
    → str_eq file "" ≡ false
    → set_cursor env (some (record { file = file; line = pos (n + 1); function = "" }))
      ≡ validated env "unable to set run-to-cursor breakpoint"
          (set_breakpoints_request file (pos (n + 1) ∷ []))
unfolding set_cursor
set_cursor-line env n file h = rw (h, lt→ltb 0 (n + 1) (omega arith)) refl

-- Run-to-cursor: when `continue` to a line of a file succeeds, the adapter has been told to hold
-- that line alone for the file (whatever it held), while the session stores the lines it had.
pub continue_execution-replaces :
    (env : Env) (thread u : ℤ) (n : ℕ) (file : String) (s : Session) (a : Adapter)
    → str_eq file "" ≡ false
    → (continue_execution env thread
        (some (record { file = file; line = pos (n + 1); function = "" }))
        s).0
      ≡ ok u
    → let t =
        (continue_execution env thread
          (some (record { file = file; line = pos (n + 1); function = "" }))
          s).1 in
      (cs : List Command) × (commands t ≡ commands s ++ cs)
      × ((execute_all cs a).lines file ≡ pos (n + 1) ∷ [])
      × (t.breakpoints ≡ s.breakpoints)
continue_execution-replaces env thread u n file s a h k =
    let to = some (record { file = file; line = pos (n + 1); function = "" }) in
    let (e, w, (c, q)) = continue_execution-inv env thread u to s k in
    let p : String = "unable to set run-to-cursor breakpoint" in
    let m = set_breakpoints_request file (pos (n + 1) ∷ []) in
    let l = ap (λ f. f s) (set_cursor-line env n file h) in
    let v =
      validated-commands env p _ m s (set_breakpoints-Sends file (pos (n + 1) ∷ []))
        (sym (ap (λ r. r.0) l) ∙ e) in
    let (d, r) = validated-Kept env p m s in
    (
      _,
      w
          ∙ ap
              (λ xs.
                xs ++ (Request.continues (thread_or_default thread (set_cursor env to s).1) ∷ []))
              (ap (λ r. commands r.1) l ∙ v)
          ∙ append_assoc (commands s) _ _,
      if_true _ _ (eq_refl file),
      ap (λ t. t.breakpoints) q ∙ ap (λ r. r.1.breakpoints) l ∙ ap (λ t. t.breakpoints) r,
    )

-- When a pause is acknowledged and the wait for its event then ends because the program has
-- terminated, `pauseAndCaptureContext` returns no result and no error, and the session does not
-- note the end.
pub pause_and_capture-terminated :
    (env : Env) (thread : ℤ) (s : Session)
    → let m = validated env "unable to pause" (pause_request (thread_or_default thread s)) in
      started s.client ≡ ok tt
      → (m s).0 ≡ ok tt
      → await_stop env (time_now env s) (m s).1 ≡ happened none
      → (pause_and_capture env thread s).0 ≡ ok none × Kept s (pause_and_capture env thread s).1
unfolding pause_and_capture
pause_and_capture-terminated env thread s g h k =
    let p : String = "unable to pause" in
    let m = pause_request (thread_or_default thread s) in
    let since = time_now env s in
    let rest : Tool (Option Stop) =
      get >>= λ t. after_pause env (thread_or_default thread s) (await_stop env since t) in
    let q = bind-ok guard_started (λ _. pause_started env thread) s tt g in
    let r = bind-ok (validated env p m) (λ _. rest) s tt h in
    let t = (validated env p m s).1 in
    let e = q ∙ r ∙ ap (λ w. after_pause env (thread_or_default thread s) w t) k in
    (ap (λ w. w.0) e, subst (Kept s) (sym (ap (λ w. w.1) e)) (validated-Kept env p m s))
