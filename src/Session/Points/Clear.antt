-- ===== src/Session/Points/Clear.antt =====
-- What `clear-breakpoints` asks of the adapter, and what is left of the maps.
use mcp_dap_server_k8s_forwa.Prelude.{
  ◌≡◌, refl, sym, ap, ◌∙◌, String, List, [], ◌∷◌, ◌++◌, map, append_assoc, append-nil, inl, inr,
}
use mcp_dap_server_k8s_forwa.Dap.Request
use mcp_dap_server_k8s_forwa.Dap.Request.{Command}
use mcp_dap_server_k8s_forwa.Dap.Methods.{set_breakpoints_request, set_function_breakpoints_request}
use mcp_dap_server_k8s_forwa.Session.{Session, Breakpoints, Env, Error, ok, err, Tool, ◌>>◌}
use mcp_dap_server_k8s_forwa.Session.Steps.{err≢ok, bind-inv, bind-fails, bind-state}
use mcp_dap_server_k8s_forwa.Session.Calls.{
  commands, Kept, Kept-refl, Kept-trans, validated-Kept, validated-commands, request-Sends, Sends,
}
use mcp_dap_server_k8s_forwa.Session.Points.{
  Answer, clear_all, clear_files, clear_functions, empty_file, forget_all,
}
use mcp_dap_server_k8s_forwa.Session.Points.Store.{set_breakpoints-Sends}
use mcp_dap_server_k8s_forwa.Session.Points.Persist.{Kept-SameBooks}

pub set_function_breakpoints-Sends :
    (fs : List String)
    → Sends (Request.set_function_breakpoints fs) (set_function_breakpoints_request fs)
unfolding set_function_breakpoints_request
set_function_breakpoints-Sends fs = request-Sends _

pub empty_file-Kept : (env : Env) (file : String) (s : Session) → Kept s (empty_file env file s).1
empty_file-Kept env file s = validated-Kept env _ (set_breakpoints_request file []) s

clear_files-Kept : (env : Env) (m : Breakpoints) (s : Session) → Kept s (clear_files env m s).1
unfolding clear_files
clear_files-Kept env [] s = Kept-refl s
clear_files-Kept env ((file, lines) ∷ m) s =
    bind-state (empty_file env file) (λ _. clear_files env m) s (Kept s)
      (empty_file-Kept env file s)
      (λ x e.
        Kept-trans s _ _ (empty_file-Kept env file s)
          (clear_files-Kept env m (empty_file env file s).1))

-- One request with no lines for each file.
abbrev pub emptied : Breakpoints → List Command
emptied m = map (λ b. Request.set_breakpoints b.0 []) m

clear_files-commands :
    (env : Env) (m : Breakpoints) (s : Session)
    → (clear_files env m s).0 ≡ ok tt
    → commands (clear_files env m s).1 ≡ commands s ++ emptied m
unfolding clear_files
clear_files-commands env [] s h = sym (append-nil (commands s))
clear_files-commands env ((file, lines) ∷ m) s h =
    let (x, u, q) = bind-inv (empty_file env file) (λ _. clear_files env m) s tt h in
    let t = (empty_file env file s).1 in
    let r = clear_files-commands env m t (sym (ap (λ r. r.0) q) ∙ h) in
    let v =
      validated-commands env _ _ (set_breakpoints_request file []) s (set_breakpoints-Sends file [])
        u in
    ap (λ r. commands r.1) q
    ∙ r
    ∙ ap (λ cs. cs ++ emptied m) v
    ∙ append_assoc (commands s) (Request.set_breakpoints file [] ∷ []) (emptied m)

clear_all-inv :
    (env : Env) (s : Session) (a : Answer)
    → (clear_all env s).0 ≡ ok a
    → let t = (clear_files env s.breakpoints s).1 in
      ((clear_files env s.breakpoints s).0 ≡ ok tt)
      × ((clear_functions env t).0 ≡ ok tt)
      × (clear_all env s ≡ forget_all (clear_functions env t).1)
unfolding clear_all
clear_all-inv env s a h =
    let (x, u, q) =
      bind-inv (clear_files env s.breakpoints) (λ _. clear_functions env >> forget_all) s a h in
    let t = (clear_files env s.breakpoints s).1 in
    let (y, v, w) =
      bind-inv (clear_functions env) (λ _. forget_all) t a (sym (ap (λ r. r.0) q) ∙ h) in
    (u, v, q ∙ w)

-- When clearing everything succeeds, the adapter was sent an empty list for each file with stored
-- breakpoints and an empty list of functions, in this order and nothing else, and both maps are
-- empty.
pub clear_all-ok :
    (env : Env) (s : Session) (a : Answer)
    → (clear_all env s).0 ≡ ok a
    → let t = (clear_all env s).1 in
      (commands t
        ≡ commands s ++ (emptied s.breakpoints ++ (Request.set_function_breakpoints [] ∷ [])))
      × (t.breakpoints ≡ [])
      × (t.function_breakpoints ≡ [])
clear_all-ok env s a h =
    let (u, v, q) = clear_all-inv env s a h in
    let t = (clear_files env s.breakpoints s).1 in
    let w =
      validated-commands env "unable to clear breakpoints" _ (set_function_breakpoints_request []) t
        (set_function_breakpoints-Sends []) v in
    let last = Request.set_function_breakpoints [] ∷ [] in
    rw q (
      w
          ∙ ap (λ cs. cs ++ last) (clear_files-commands env s.breakpoints s u)
          ∙ append_assoc (commands s) (emptied s.breakpoints) last,
      refl,
      refl,
    )

-- When it fails, at whichever request, both maps are as they were: also those files whose
-- breakpoints the adapter has already dropped are still stored.
pub clear_all-fails :
    (env : Env) (s : Session) (e : Error)
    → (clear_all env s).0 ≡ err e
    → let t = (clear_all env s).1 in
      (t.breakpoints ≡ s.breakpoints) × (t.function_breakpoints ≡ s.function_breakpoints)
unfolding clear_all
clear_all-fails env s e h =
    let rest : Tool Answer = clear_functions env >> forget_all in
    let t = (clear_files env s.breakpoints s).1 in
    let k = clear_files-Kept env s.breakpoints s in
    elim (bind-fails (clear_files env s.breakpoints) (λ _. rest) s e h) [
      | inl q ↦ rw q (Kept-SameBooks s t k)
      | inr (x, u, q) ↦
          elim (bind-fails (clear_functions env) (λ _. forget_all) t e
            (sym (ap (λ r. r.0) q) ∙ h)) [
              | inl v ↦
                  rw (ap (λ r. r.1) q, v)
                    (Kept-SameBooks s (clear_functions env t).1 (
                      Kept-trans s t _ k
                        (validated-Kept env _ (set_function_breakpoints_request []) t)))
              | inr (y, v, w) ↦ err≢ok e (clear_all env s).0 h (ap (λ r. r.0) (q ∙ w))
            ]
    ]
