-- ===== src/Session/Query/Frame.antt =====
-- Which frame `evaluate` looks at, after a context has been fetched.
use mcp_dap_server_k8s_forwa.Prelude.{
  ℤ, pos, ◌≡◌, sym, ap, ◌∙◌, String, List, [], ◌∷◌, ◌++◌, Option, none, some, false, ltb_ℤ,
  if_false, Bool-cases, inl, inr,
}
use mcp_dap_server_k8s_forwa.Dap.Message.{StackFrame, Scope}
use mcp_dap_server_k8s_forwa.Dap.Request
use mcp_dap_server_k8s_forwa.Dap.Request.{Command}
use mcp_dap_server_k8s_forwa.Dap.Methods.{
  stack_trace_request, scopes_request, variables_request, evaluate_request,
}
use mcp_dap_server_k8s_forwa.Session.{
  Session, Env, ok, wrapping, Tool, pure, ◌>>=◌, ◌>>◌, modify, guard_started, typed_call,
}
use mcp_dap_server_k8s_forwa.Session.Steps.{wrap_error-inv, bind-inv, bind-state}
use mcp_dap_server_k8s_forwa.Session.Calls.{
  commands, Kept, Kept-refl, Kept-trans, typed_call-Kept, typed_call-commands, request-Sends, Sends,
}
use mcp_dap_server_k8s_forwa.Session.Control.Snapshot.{
  Context, attempt, variable_list, scope_list, frames_body, list_scopes, list_found, list_one,
  write_scopes_and_variables, target_frame, get_full_context,
}
use mcp_dap_server_k8s_forwa.Session.Query.{
  eval_frame, eval_context, evaluated, evaluate_started, evaluate_expression,
}

list_one-Kept : (env : Env) (scope : Scope) (s : Session) → Kept s (list_one env scope s).1
list_one-Kept env scope s = elim (Bool-cases (ltb_ℤ (pos 0) scope.variables_reference)) [
  | inl e ↦ rw e (typed_call-Kept env variable_list (variables_request scope.variables_reference) s)
  | inr e ↦ rw e (Kept-refl s)
]

list_scopes-Kept : (env : Env) (ss : List Scope) (s : Session) → Kept s (list_scopes env ss s).1
unfolding list_scopes
list_scopes-Kept env [] s = Kept-refl s
list_scopes-Kept env (scope ∷ ss) s =
    bind-state (list_one env scope)
      (λ l. list_scopes env ss >>= λ rest. pure ((scope.name, l) ∷ rest)) s (Kept s)
      (list_one-Kept env scope s)
      (λ l e.
        let t = (list_one env scope s).1 in
        bind-state (list_scopes env ss) (λ rest. pure ((scope.name, l) ∷ rest)) t (Kept s)
          (Kept-trans s t _ (list_one-Kept env scope s) (list_scopes-Kept env ss t))
          (λ rest f. Kept-trans s t _ (list_one-Kept env scope s) (list_scopes-Kept env ss t)))

list_found-Kept :
    (env : Env) (o : Option (List Scope)) (s : Session) → Kept s (list_found env o s).1
list_found-Kept env none s = Kept-refl s
list_found-Kept env (some ss) s =
    bind-state (list_scopes env ss) _ s (Kept s) (list_scopes-Kept env ss s)
      (λ l e. list_scopes-Kept env ss s)

pub write_scopes-Kept :
    (env : Env) (f : ℤ) (s : Session) → Kept s (write_scopes_and_variables env f s).1
unfolding write_scopes_and_variables
write_scopes-Kept env f s =
    let t = (typed_call env scope_list (scopes_request f) s).1 in
    let k = typed_call-Kept env scope_list (scopes_request f) s in
    bind-state (attempt (typed_call env scope_list (scopes_request f))) (list_found env) s (Kept s)
      k (λ o e. Kept-trans s t _ k (list_found-Kept env o t))

-- A context that was fetched is the one of its frames, and the session remembers the frame looked
-- at.
pub get_full_context-frame :
    (env : Env) (thread frame n : ℤ) (s : Session) (c : Context)
    → (get_full_context env thread frame n s).0 ≡ ok c
    → (get_full_context env thread frame n s).1.last_frame_id ≡ target_frame frame c.frames
unfolding get_full_context
get_full_context-frame env thread frame n s c h =
    let m =
      wrapping "unable to get stack trace"
        (typed_call env frames_body (stack_trace_request thread (pos 0) n)) in
    let scopes : List StackFrame → Tool Context = λ fs.
      write_scopes_and_variables env (target_frame frame fs) >>= λ o.
      pure (record { frames = fs; scopes = o }) in
    let note : List StackFrame → Session → Session =
      λ fs x. record x { last_frame_id = target_frame frame fs } in
    let rest : List StackFrame → Tool Context = λ fs. modify (note fs) >> scopes fs in
    let (x, e, p) = bind-inv guard_started (λ _. m >>= rest) s c h in
    let (fs, f, q) = bind-inv m rest s c (sym (ap (λ r. r.0) p) ∙ h) in
    let t = note fs (m s).1 in
    let w = write_scopes_and_variables env (target_frame frame fs) in
    let (o, g, r) =
      bind-inv w (λ o. pure (record { frames = fs; scopes = o })) t c
        (sym (ap (λ r. r.0) (p ∙ q)) ∙ h) in
    let u : ok (record { frames = fs; scopes = o }) ≡ ok c = sym (ap (λ r. r.0) (p ∙ q ∙ r)) ∙ h in
    let (d, k) = write_scopes-Kept env (target_frame frame fs) t in
    let v : record { frames = fs; scopes = o } ≡ c = cc u in
    ap (λ r. r.1.last_frame_id) (p ∙ q ∙ r)
    ∙ ap (λ x. x.last_frame_id) k
    ∙ ap (λ c. target_frame frame c.frames) v

evaluate_request-Sends :
    (x : String) (f : ℤ) (k : String) → Sends (Request.evaluate x f k) (evaluate_request x f k)
unfolding evaluate_request
evaluate_request-Sends x f k = request-Sends _

-- After a context of a frame has been fetched, `evaluate` without a frame of its own asks the
-- adapter to evaluate in that frame: in the one that was asked for, or else in the top frame.
pub evaluate-in_last_frame :
    (env env' : Env) (thread frame n : ℤ) (s : Session) (c : Context) (x k : String)
    (v : String × String)
    → (get_full_context env thread frame n s).0 ≡ ok c
    → ltb_ℤ (target_frame frame c.frames) (pos 0) ≡ false
    → let t = (get_full_context env thread frame n s).1 in
      (evaluate_expression env' x none k t).0 ≡ ok v
      → commands (evaluate_expression env' x none k t).1
        ≡ commands t ++ (Request.evaluate x (target_frame frame c.frames) (eval_context k) ∷ [])
unfolding evaluate_expression eval_frame
evaluate-in_last_frame env env' thread frame n s c x k v h l u =
    let t = (get_full_context env thread frame n s).1 in
    let e = get_full_context-frame env thread frame n s c h in
    let f = eval_frame none t in
    let m = evaluate_request x f (eval_context k) in
    let fe : f ≡ target_frame frame c.frames = if_false _ _ (ap (λ q. ltb_ℤ q (pos 0)) e ∙ l) ∙ e in
    let (y, g, p) = bind-inv guard_started (λ _. evaluate_started env' x none k) t v u in
    let w =
      wrap_error-inv "unable to evaluate expression" (typed_call env' evaluated m t).0 v
        (sym (ap (λ r. r.0) p) ∙ u) in
    ap (λ r. commands r.1) p
    ∙ typed_call-commands env' evaluated _ m t v (evaluate_request-Sends x f (eval_context k)) w
    ∙ ap (λ q. commands t ++ (Request.evaluate x q (eval_context k) ∷ [])) fe
