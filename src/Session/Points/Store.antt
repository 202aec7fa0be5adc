-- ===== src/Session/Points/Store.antt =====
-- When `breakpoint` stores, and what it has asked of the adapter then.
use mcp_dap_server_k8s_forwa.Prelude.{
  ℤ, pos, ◌≡◌, refl, sym, ap, ◌∙◌, String, List, [], ◌∷◌, ◌++◌, false, not, ◌||◌, str_eq, eqb_ℤ,
  last?, Bool-cases, Option-cases, ◌⊎◌, inl, inr,
}
use mcp_dap_server_k8s_forwa.Dap.Request
use mcp_dap_server_k8s_forwa.Dap.Message.{Breakpoint}
use mcp_dap_server_k8s_forwa.Dap.Methods.{set_breakpoints_request, set_function_breakpoints_request}
use mcp_dap_server_k8s_forwa.Session.{
  Session, Env, Error, ok, err, Tool, ◌>>=◌, validated, typed_call, not_started, said,
}
use mcp_dap_server_k8s_forwa.Session.Steps.{wrap_error-inv, bind-inv}
use mcp_dap_server_k8s_forwa.Session.Calls.{
  commands, Sends, request-Sends, Kept, typed_call-Kept, typed_call-commands,
}
use mcp_dap_server_k8s_forwa.Session.Points.{
  Params, Answer, set_on_function, already_set, lines_of, with_function, last_breakpoint, set_lines,
  persist_lines, persist_functions, breakpoints_body, breakpoint_at_line, breakpoint_on_function,
  breakpoint, has_line, put_lines,
}

pub set_breakpoints-Sends :
    (file : String) (lines : List ℤ)
    → Sends (Request.set_breakpoints file lines) (set_breakpoints_request file lines)
unfolding set_breakpoints_request
set_breakpoints-Sends file lines = request-Sends _

pub set_lines-Kept :
    (env : Env) (file : String) (lines : List ℤ) (s : Session)
    → Kept s (set_lines env file lines s).1
set_lines-Kept env file lines s =
    typed_call-Kept env breakpoints_body (set_breakpoints_request file lines) s

pub set_lines-commands :
    (env : Env) (file : String) (lines : List ℤ) (s : Session) (bs : List Breakpoint)
    → (set_lines env file lines s).0 ≡ ok bs
    → commands (set_lines env file lines s).1
      ≡ commands s ++ (Request.set_breakpoints file lines ∷ [])
set_lines-commands env file lines s bs h =
    let m = set_breakpoints_request file lines in
    typed_call-commands env breakpoints_body _ m s bs (set_breakpoints-Sends file lines)
      (wrap_error-inv "unable to set breakpoint" (typed_call env breakpoints_body m s).0 bs h)

pub last_breakpoint-state : (bs : List Breakpoint) (s : Session) → (last_breakpoint bs s).1 ≡ s
last_breakpoint-state bs s = elim (Option-cases (last? bs)) [
  | inl e ↦ rw (e, last_breakpoint)
  | inr (b, e) ↦ elim (Bool-cases b.verified) [
    | inl f ↦ rw (e, last_breakpoint, f)
    | inr f ↦ rw (e, last_breakpoint, f)
  ]
]

-- A success: the two steps were taken and the list is stored.
pub breakpoint_at_line-inv :
    (env : Env) (file : String) (line : ℤ) (s : Session) (a : Answer)
    → (breakpoint_at_line env file line s).0 ≡ ok a
    → let lines = lines_of file s.breakpoints ++ (line ∷ []) in
      let t = (set_lines env file lines s).1 in
      (bs : List Breakpoint) × ((set_lines env file lines s).0 ≡ ok bs)
      × ((breakpoint_at_line env file line s).1
          ≡ record t { breakpoints = put_lines file lines t.breakpoints })
unfolding breakpoint_at_line
breakpoint_at_line-inv env file line s a h =
    let lines = lines_of file s.breakpoints ++ (line ∷ []) in
    let rest : List Breakpoint → Tool Answer =
      λ bs. last_breakpoint bs >>= persist_lines file lines in
    let (bs, u, p) = bind-inv (set_lines env file lines) rest s a h in
    let t = (set_lines env file lines s).1 in
    let (b, v, q) =
      bind-inv (last_breakpoint bs) (persist_lines file lines) t a (sym (ap (λ r. r.0) p) ∙ h) in
    (
      bs,
      u,
      ap (λ r. r.1) (p ∙ q)
          ∙ ap (λ t. (persist_lines file lines b t).1) (last_breakpoint-state bs t),
    )

-- A success of the part for a function.
pub breakpoint_on_function-inv :
    (env : Env) (function : String) (s : Session) (a : Answer)
    → (breakpoint_on_function env function s).0 ≡ ok a
    → let functions = with_function function s.function_breakpoints in
      let t =
        (validated env "unable to set function breakpoint"
          (set_function_breakpoints_request functions)
          s).1 in
      (a ≡ set_on_function function)
      × ((breakpoint_on_function env function s).1 ≡ record t { function_breakpoints = functions })
unfolding breakpoint_on_function
breakpoint_on_function-inv env function s a h =
    let functions = with_function function s.function_breakpoints in
    let m =
      validated env "unable to set function breakpoint"
        (set_function_breakpoints_request functions) in
    let (x, u, p) = bind-inv m (λ _. persist_functions functions function) s a h in
    let e : ok (set_on_function function) ≡ ok a = sym (ap (λ r. r.0) p) ∙ h in
    (cc e, ap (λ r. r.1) p)

-- The four ways through `breakpoint`.
pub breakpoint-cases :
    (env : Env) (p : Params) (s : Session)
    → ((e : Error) × (breakpoint env p s ≡ (err e, s)))
      ⊎ (breakpoint env p s ≡ (ok (already_set p.file p.line), s))
      ⊎ (breakpoint env p s ≡ breakpoint_on_function env p.function s)
      ⊎ ((has_line p.line (lines_of p.file s.breakpoints) ≡ false)
          × (breakpoint env p s ≡ breakpoint_at_line env p.file p.line s))
unfolding breakpoint
breakpoint-cases env p s = elim (Option-cases s.client) [
  | inl n ↦ inl (not_started, rw (n, breakpoint) refl)
  | inr (c, n) ↦ elim (Bool-cases (not (str_eq p.function ""))) [
    | inl f ↦ inr (inr (inl (rw (n, breakpoint, f) refl)))
    | inr f ↦ elim (Bool-cases (str_eq p.file "" || eqb_ℤ p.line (pos 0))) [
      | inl z ↦ inl (said "either function or file+line is required", rw (n, breakpoint, f, z) refl)
      | inr z ↦ elim (Bool-cases (has_line p.line (lines_of p.file s.breakpoints))) [
        | inl d ↦ inr (inl (rw (n, breakpoint, f, z, d) refl))
        | inr d ↦ inr (inr (inr (d, rw (n, breakpoint, f, z, d) refl)))
      ]
    ]
  ]
]
