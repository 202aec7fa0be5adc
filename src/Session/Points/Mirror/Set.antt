-- ===== src/Session/Points/Mirror/Set.antt =====
-- The tool `breakpoint` of tools.go and an adapter.
use mcp_dap_server_k8s_forwa.Prelude.{ℤ, ◌≡◌, sym, ap, ◌∙◌, subst, String, [], ◌∷◌, ◌++◌, inl, inr}
use mcp_dap_server_k8s_forwa.Dap.Request
use mcp_dap_server_k8s_forwa.Dap.Request.{Command}
use mcp_dap_server_k8s_forwa.Dap.Methods.{set_function_breakpoints_request}
use mcp_dap_server_k8s_forwa.Session.{Session, Env, ok, validated}
use mcp_dap_server_k8s_forwa.Session.Steps.{err≢ok, bind-inv}
use mcp_dap_server_k8s_forwa.Session.Calls.{commands, validated-commands, validated-Kept}
use mcp_dap_server_k8s_forwa.Session.Points.{
  Params, Answer, lines_of, put_lines, with_function, persist_functions, breakpoint,
  breakpoint_at_line, breakpoint_on_function,
}
use mcp_dap_server_k8s_forwa.Session.Points.Books.{lines_of-put_self, lines_of-put_ne}
use mcp_dap_server_k8s_forwa.Session.Points.Store.{
  set_lines-Kept, set_lines-commands, breakpoint_at_line-inv, breakpoint-cases,
}
use mcp_dap_server_k8s_forwa.Session.Points.Persist.{stored_lines, Kept-SameBooks}
use mcp_dap_server_k8s_forwa.Session.Points.Clear.{set_function_breakpoints-Sends}
use mcp_dap_server_k8s_forwa.Session.Reinit.Adapter.{execute}
use mcp_dap_server_k8s_forwa.Session.Points.Mirror.{Follows, Follows-refl, execute-lines}

at_line-Follows :
    (env : Env) (file : String) (line : ℤ) (s : Session) (x : Answer)
    → (breakpoint_at_line env file line s).0 ≡ ok x
    → Follows s (breakpoint_at_line env file line s).1
at_line-Follows env file line s x h =
    let lines = lines_of file s.breakpoints ++ (line ∷ []) in
    let (bs, u, e) = breakpoint_at_line-inv env file line s x h in
    let (c, k) = set_lines-Kept env file lines s in
    let b = stored_lines env file line s x h in
    (
      Request.set_breakpoints file lines ∷ [],
      ap commands e ∙ set_lines-commands env file lines s bs u,
      λ a (m, f). (
        λ g.
            subst (λ n. (execute (Request.set_breakpoints file lines) a).lines g ≡ lines_of g n)
              (sym b)
              (execute-lines file g lines a s.breakpoints (put_lines file lines s.breakpoints) (m g)
                (lines_of-put_self file lines s.breakpoints)
                (lines_of-put_ne file g lines s.breakpoints)),
        f ∙ sym (ap (λ t. t.function_breakpoints) e ∙ ap (λ t. t.function_breakpoints) k),
      ),
    )

on_function-Follows :
    (env : Env) (function : String) (s : Session) (x : Answer)
    → (breakpoint_on_function env function s).0 ≡ ok x
    → Follows s (breakpoint_on_function env function s).1
unfolding breakpoint_on_function
on_function-Follows env function s x h =
    let fs = with_function function s.function_breakpoints in
    let p : String = "unable to set function breakpoint" in
    let method = set_function_breakpoints_request fs in
    let (y, u, q) = bind-inv (validated env p method) (λ _. persist_functions fs function) s x h in
    let t = (validated env p method s).1 in
    let (b, k) = Kept-SameBooks s t (validated-Kept env p method s) in
    let e = ap (λ r. r.1) q in
    (
      Request.set_function_breakpoints fs ∷ [],
      ap commands e
          ∙ validated-commands env p (Request.set_function_breakpoints fs) method s
              (set_function_breakpoints-Sends fs) u,
      λ a (m, f). (
        λ g. m g ∙ ap (lines_of g) (sym (ap (λ t. t.breakpoints) e ∙ b)),
        sym (ap (λ t. t.function_breakpoints) e),
      ),
    )

pub breakpoint-Follows :
    (env : Env) (p : Params) (s : Session) (x : Answer)
    → (breakpoint env p s).0 ≡ ok x
    → Follows s (breakpoint env p s).1
breakpoint-Follows env p s x h = elim (breakpoint-cases env p s) [
  | inl (e, q) ↦ err≢ok e (breakpoint env p s).0 (ap (λ r. r.0) q) h
  | inr (inl q) ↦ subst (λ r. Follows s r.1) (sym q) (Follows-refl s)
  | inr (inr (inl q)) ↦
      subst (λ r. Follows s r.1) (sym q)
        (on_function-Follows env p.function s x (sym (ap (λ r. r.0) q) ∙ h))
  | inr (inr (inr (d, q))) ↦
      subst (λ r. Follows s r.1) (sym q)
        (at_line-Follows env p.file p.line s x (sym (ap (λ r. r.0) q) ∙ h))
]
