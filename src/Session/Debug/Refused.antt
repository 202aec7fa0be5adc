-- ===== src/Session/Debug/Refused.antt =====
-- tools.go: `debug` when its checks refuse the parameters.
use mcp_dap_server_k8s_forwa.Prelude.{
  ◌≡◌, refl, sym, ap, subst, ◌∙◌, String, Option, none, some, inl, inr,
}
use mcp_dap_server_k8s_forwa.Backend.{Backend}
use mcp_dap_server_k8s_forwa.Session.{Session, Error, err, lift}
use mcp_dap_server_k8s_forwa.Session.Steps.{bind-fails, bind-state, bind-err, err≢ok}
use mcp_dap_server_k8s_forwa.Session.Lifecycle.{
  DebugParams, connects, cleanup, debug_mode, check_required, select_backend,
}
use mcp_dap_server_k8s_forwa.Session.Debug.{
  World, required, choose, check_mode, keep_choice, check_params, run_session, debug,
}

required-state : (o : Option Error) (s : Session) → (required o s).1 ≡ s
required-state none s = refl
required-state (some e) s = refl

choose-err :
    (w : World) (p : DebugParams) (old : Option Backend) (s : Session) (mode : String) (e : Error)
    → (choose w p old mode s).0 ≡ err e
    → (choose w p old mode s).1 ≡ s
choose-err w p old s mode e h =
    elim (bind-fails (lift (select_backend w.gdb_found old p)) (keep_choice mode) s e h) [
      | inl q ↦ q
      | inr (b, f, q) ↦ err≢ok e (choose w p old mode s).0 h (ap (λ t. t.0) q)
    ]

check_mode-err :
    (w : World) (p : DebugParams) (old : Option Backend) (s : Session) (mode : String) (e : Error)
    → (check_mode w p old mode s).0 ≡ err e
    → (check_mode w p old mode s).1 ≡ s
check_mode-err w p old s mode e h =
    let m = required (check_required (connects old) mode p) in
    elim (bind-fails m (λ _. choose w p old mode) s e h) [
      | inl q ↦ q ∙ required-state _ s
      | inr (x, f, q) ↦
          ap (λ t. t.1) q
          ∙ (choose-err w p old (m s).1 mode e (sym (ap (λ t. t.0) q) ∙ h)
              ∙ required-state (check_required (connects old) mode p) s)
    ]

check_params-err :
    (w : World) (p : DebugParams) (s : Session) (e : Error)
    → (check_params w p s).0 ≡ err e
    → (check_params w p s).1 ≡ s
unfolding check_params
check_params-err w p s e h =
    elim (bind-fails (lift (debug_mode (connects s.backend) p)) (check_mode w p s.backend) s e h) [
      | inl q ↦ q
      | inr (m, f, q) ↦
          ap (λ t. t.1) q ∙ check_mode-err w p s.backend s m e (sym (ap (λ t. t.0) q) ∙ h)
    ]

-- When the parameters of `debug` are refused, the old session has been ended all the same, and nothing else
-- has happened: no process was started, no connection made and no request sent, and the backend is the old.
pub debug-refused :
    (w : World) (p : DebugParams) (s : Session) (e : Error)
    → (check_params w p (cleanup s)).0 ≡ err e
    → debug w p s ≡ (err e, cleanup s)
unfolding debug
debug-refused w p s e h =
    let c = cleanup s in
    bind-err (check_params w p) (run_session w p) c e h
    ∙ ap (λ t. (err e, t)) (check_params-err w p c e h)

-- The checks change the backend at most.
pub check_params-state {ℓ} :
    (P : Session → Type ℓ) (w : World) (p : DebugParams) (s : Session)
    → P s
    → ((b : Backend) → P (record s { backend = some b }))
    → P (check_params w p s).1
unfolding check_params
check_params-state P w p s h k =
    bind-state (lift (debug_mode (connects s.backend) p)) (check_mode w p s.backend) s P h
      (λ mode e.
        let o = check_required (connects s.backend) mode p in
        bind-state (required o) (λ _. choose w p s.backend mode) s P
          (subst P (sym (required-state o s)) h)
          (λ x f.
            subst (λ t. P (choose w p s.backend mode t).1) (sym (required-state o s))
              (bind-state (lift (select_backend w.gdb_found s.backend p)) (keep_choice mode) s P h
                (λ b g. k b))))
