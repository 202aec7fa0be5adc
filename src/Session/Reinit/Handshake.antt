-- ===== src/Session/Reinit/Handshake.antt =====
-- `reinitialize` as a whole.
use mcp_dap_server_k8s_forwa.Prelude.{
  pos, negsuc, ◌≡◌, refl, sym, ap, ◌∙◌, subst, String, List, [], ◌∷◌, ◌++◌, Option, none, some,
}
use mcp_dap_server_k8s_forwa.Backend.{Backend, adapter_id, attach_args, built}
use mcp_dap_server_k8s_forwa.Dap.Message.{Capabilities, Fields}
use mcp_dap_server_k8s_forwa.Dap.Request
use mcp_dap_server_k8s_forwa.Dap.Request.{Command}
use mcp_dap_server_k8s_forwa.Dap.Client.{Client}
use mcp_dap_server_k8s_forwa.Session.{
  Session, Breakpoints, Env, said, ok, Tool, ◌>>=◌, ◌>>◌, get, modify,
}
use mcp_dap_server_k8s_forwa.Session.Steps.{err≢ok, bind-inv}
use mcp_dap_server_k8s_forwa.Session.Calls.{commands}
use mcp_dap_server_k8s_forwa.Session.Reinit.{
  greet, put_capabilities, attach_again, reapply, handshake, forget_position, reinitialize_with,
  reinitialize,
}
use mcp_dap_server_k8s_forwa.Session.Reinit.Applies.{
  Writes, Writes-then, SameBooks-trans, greet-Writes, attach_again-Writes, reapply-Writes,
  reapply_commands,
}

-- What `reinitialize` sends: the greeting, the attach, each file's stored lines, the stored
-- functions if there are any, and the end of the configuration.
abbrev pub reinit_commands : Backend → Fields → Breakpoints → List String → List Command
reinit_commands b args m fs =
    Request.initialize (adapter_id b) ∷ Request.attach args ∷ reapply_commands m fs

abbrev reapply_stored : Env → Tool (Unit {0})
reapply_stored env = get >>= λ t. reapply env t.breakpoints t.function_breakpoints

reapply_stored-Writes :
    (env : Env) (m : Breakpoints) (fs : List String) (w : Session)
    → w.breakpoints ≡ m
    → w.function_breakpoints ≡ fs
    → Writes (reapply_commands m fs) (reapply_stored env) w
reapply_stored-Writes env m fs w h k =
    subst (λ m. Writes (reapply_commands m fs) (reapply_stored env) w) h
      (subst (λ fs. Writes (reapply_commands w.breakpoints fs) (reapply_stored env) w) k
        (reapply-Writes env w.breakpoints w.function_breakpoints w))

handshake-Writes :
    (env : Env) (b : Backend) (args : Fields) (s : Session)
    → attach_args b (pos 0) ≡ built args
    → Writes (reinit_commands b args s.breakpoints s.function_breakpoints) (handshake env b) s
unfolding handshake
handshake-Writes env b args s e =
    let tail = reapply_commands s.breakpoints s.function_breakpoints in
    let rest : Capabilities → Tool (Unit {0}) =
      λ caps. put_capabilities caps >> (attach_again env b >> reapply_stored env) in
    Writes-then (Request.initialize (adapter_id b) ∷ []) (Request.attach args ∷ tail) (greet env b)
      rest s (greet-Writes env b s)
      (λ caps u.
        let k = (greet-Writes env b s caps u).1 in
        let t : Session = record (greet env b s).1 { capabilities = caps } in
        Writes-then (Request.attach args ∷ []) tail (attach_again env b) (λ _. reapply_stored env) t
          (attach_again-Writes env b args t e)
          (λ x v.
            let l =
              SameBooks-trans s t (attach_again env b t).1 k
                (attach_again-Writes env b args t e x v).1 in
            let w = (attach_again env b t).1 in
            reapply_stored-Writes env s.breakpoints s.function_breakpoints w l.0 l.1))

reinitialize_with-eq :
    (env : Env) (o : Option Client) (b : Backend) (s : Session)
    → (reinitialize_with env o (some b) s).0 ≡ ok tt
    → reinitialize_with env o (some b) s ≡ (handshake env b >> modify forget_position) s
unfolding reinitialize_with
reinitialize_with-eq env none b s k =
    err≢ok (said "reinitialize: no DAP client") (reinitialize_with env none (some b) s).0 refl k
reinitialize_with-eq env (some c) b s k = refl

reinitialize-eq :
    (env : Env) (b : Backend) (s : Session)
    → s.backend ≡ some b
    → (reinitialize env s).0 ≡ ok tt
    → reinitialize env s ≡ (handshake env b >> modify forget_position) s
unfolding reinitialize
reinitialize-eq env b s h k =
    let q = ap (λ x. reinitialize_with env s.client x s) h in
    q ∙ reinitialize_with-eq env s.client b s (sym (ap (λ r. r.0) q) ∙ k)

-- When `reinitialize` succeeds, it has written exactly: the greeting, the attach request, one
-- request with the stored lines of each stored file, the stored functions if there are any, and
-- `configurationDone`. Both maps are as they were, and the thread, the frame and the instant of the
-- last stop are forgotten.
pub reinitialize-ok :
    (env : Env) (b : Backend) (args : Fields) (s : Session)
    → s.backend ≡ some b
    → attach_args b (pos 0) ≡ built args
    → (reinitialize env s).0 ≡ ok tt
    → let t = (reinitialize env s).1 in
      (commands t ≡ commands s ++ reinit_commands b args s.breakpoints s.function_breakpoints)
      × (t.breakpoints ≡ s.breakpoints)
      × (t.function_breakpoints ≡ s.function_breakpoints)
      × (t.stopped_thread_id ≡ pos 0)
      × (t.last_frame_id ≡ negsuc 0)
      × (t.last_stop_at ≡ 0)
reinitialize-ok env b args s h e k =
    let q = reinitialize-eq env b s h k in
    let (x, u, v) =
      bind-inv (handshake env b) (λ _. modify forget_position) s tt (sym (ap (λ r. r.0) q) ∙ k) in
    let (c, d) = handshake-Writes env b args s e x u in rw (q ∙ v) (c, d.0, d.1, refl, refl, refl)
