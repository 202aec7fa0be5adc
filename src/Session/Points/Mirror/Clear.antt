-- ===== src/Session/Points/Mirror/Clear.antt =====
-- The tool `clear-breakpoints` of tools.go and an adapter.
use mcp_dap_server_k8s_forwa.Prelude.{
  ◌≡◌, ◌≢◌, ◌⊎◌, refl, sym, ap, ◌∙◌, subst, String, Bool, [], ◌∷◌, ◌++◌, Option-cases, Bool-cases,
  inl, inr, not, str_eq, if_true, if_false, if_keeps,
}
use mcp_dap_server_k8s_forwa.Dap.Request
use mcp_dap_server_k8s_forwa.Dap.Request.{Command}
use mcp_dap_server_k8s_forwa.Dap.Methods.{set_breakpoints_request}
use mcp_dap_server_k8s_forwa.Session.{Session, Breakpoints, Env, Error, ok, err, not_started, said}
use mcp_dap_server_k8s_forwa.Session.Steps.{err≢ok, bind-inv}
use mcp_dap_server_k8s_forwa.Session.Calls.{commands, validated-commands}
use mcp_dap_server_k8s_forwa.Session.Points.{
  Answer, lines_of, remove_file, clear_all, clear_file, clear_breakpoints, empty_file, forget_file,
}
use mcp_dap_server_k8s_forwa.Session.Points.Books.{
  lines_of-remove_self, lines_of-remove_ne, str_eq-ne, str_eq-false,
}
use mcp_dap_server_k8s_forwa.Session.Points.Store.{set_breakpoints-Sends}
use mcp_dap_server_k8s_forwa.Session.Points.Persist.{Kept-SameBooks}
use mcp_dap_server_k8s_forwa.Session.Points.Clear.{emptied, clear_all-ok, empty_file-Kept}
use mcp_dap_server_k8s_forwa.Session.Reinit.Adapter.{
  Adapter, execute, execute_all, execute_all-append,
}
use mcp_dap_server_k8s_forwa.Session.Points.Mirror.{Follows, execute-lines}

emptied-nil :
    (m : Breakpoints) (a : Adapter) (g : String)
    → a.lines g ≡ []
    → (execute_all (emptied m) a).lines g ≡ []
emptied-nil [] a g h = h
emptied-nil ((f, lines) ∷ m) a g h =
    emptied-nil m (execute (Request.set_breakpoints f []) a) g
      (if_keeps (λ xs. xs ≡ []) (str_eq g f) [] (a.lines g) refl h)

emptied-lines :
    (m : Breakpoints) (a : Adapter) (g : String)
    → a.lines g ≡ lines_of g m
    → (execute_all (emptied m) a).lines g ≡ []
unfolding lines_of
emptied-lines [] a g h = h
emptied-lines ((f, lines) ∷ m) a g h = elim (Bool-cases (str_eq g f)) [
  | inl e ↦ emptied-nil m (execute (Request.set_breakpoints f []) a) g (if_true _ _ e)
  | inr e ↦
      let ne : f ≢ g = λ q. str_eq-false g f e (sym q) in
      emptied-lines m (execute (Request.set_breakpoints f []) a) g
        (if_false _ _ e ∙ (h ∙ if_false _ _ (str_eq-ne f g ne)))
]

clear_all-Follows :
    (env : Env) (s : Session) (x : Answer)
    → (clear_all env s).0 ≡ ok x
    → Follows s (clear_all env s).1
unfolding lines_of
clear_all-Follows env s x h =
    let (c, b, f) = clear_all-ok env s x h in
    let last = Request.set_function_breakpoints [] ∷ [] in
    (
      emptied s.breakpoints ++ last,
      c,
      λ a (m, k).
          let q = execute_all-append (emptied s.breakpoints) last a in
          (
            λ g.
                ap (λ a. a.lines g) q
                ∙ (emptied-lines s.breakpoints a g (m g) ∙ ap (lines_of g) (sym b)),
            ap (λ a. a.functions) q ∙ sym f,
          ),
    )

clear_file-Follows :
    (env : Env) (file : String) (s : Session) (x : Answer)
    → (clear_file env file s).0 ≡ ok x
    → Follows s (clear_file env file s).1
unfolding clear_file
clear_file-Follows env file s x h =
    let p : String = "unable to clear breakpoints" in
    let (y, u, q) = bind-inv (empty_file env file) (λ _. forget_file file) s x h in
    let t = (empty_file env file s).1 in
    let (b, k) = Kept-SameBooks s t (empty_file-Kept env file s) in
    let e = ap (λ r. r.1) q in
    let n = ap (λ t. t.breakpoints) e ∙ ap (remove_file file) b in
    (
      Request.set_breakpoints file [] ∷ [],
      ap commands e
          ∙ validated-commands env p (Request.set_breakpoints file [])
              (set_breakpoints_request file []) s (set_breakpoints-Sends file []) u,
      λ a (m, f). (
        λ g.
            subst (λ n. (execute (Request.set_breakpoints file []) a).lines g ≡ lines_of g n)
              (sym n)
              (execute-lines file g [] a s.breakpoints (remove_file file s.breakpoints) (m g)
                (lines_of-remove_self file s.breakpoints)
                (lines_of-remove_ne file g s.breakpoints)),
        f ∙ sym (ap (λ t. t.function_breakpoints) e ∙ k),
      ),
    )

clear_breakpoints-cases :
    (env : Env) (file : String) (everything : Bool) (s : Session)
    → ((e : Error) × (clear_breakpoints env file everything s ≡ (err e, s)))
      ⊎ (clear_breakpoints env file everything s ≡ clear_all env s)
      ⊎ (clear_breakpoints env file everything s ≡ clear_file env file s)
unfolding clear_breakpoints
clear_breakpoints-cases env file everything s = elim (Option-cases s.client) [
  | inl n ↦ inl (not_started, rw (n, clear_breakpoints) refl)
  | inr (c, n) ↦ elim (Bool-cases everything) [
    | inl f ↦ inr (inl (rw (n, clear_breakpoints, f) refl))
    | inr f ↦ elim (Bool-cases (not (str_eq file ""))) [
      | inl z ↦ inr (inr (rw (n, clear_breakpoints, f, z) refl))
      | inr z ↦ inl (said "specify 'file' or 'all'", rw (n, clear_breakpoints, f, z) refl)
    ]
  ]
]

pub clear_breakpoints-Follows :
    (env : Env) (file : String) (everything : Bool) (s : Session) (x : Answer)
    → (clear_breakpoints env file everything s).0 ≡ ok x
    → Follows s (clear_breakpoints env file everything s).1
clear_breakpoints-Follows env file everything s x h =
    elim (clear_breakpoints-cases env file everything s) [
      | inl (e, q) ↦ err≢ok e (clear_breakpoints env file everything s).0 (ap (λ r. r.0) q) h
      | inr (inl q) ↦
          subst (λ r. Follows s r.1) (sym q) (clear_all-Follows env s x (sym (ap (λ r. r.0) q) ∙ h))
      | inr (inr q) ↦
          subst (λ r. Follows s r.1) (sym q)
            (clear_file-Follows env file s x (sym (ap (λ r. r.0) q) ∙ h))
    ]
