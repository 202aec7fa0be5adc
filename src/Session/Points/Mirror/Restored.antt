-- ===== src/Session/Points/Mirror/Restored.antt =====
-- tools.go: `reinitialize`, and the breakpoint tools after it.
use mcp_dap_server_k8s_forwa.Prelude.{pos, ◌≡◌, sym, ap, ◌∙◌, subst, List, ◌++◌, append_assoc, some}
use mcp_dap_server_k8s_forwa.Backend.{Backend, attach_args, built}
use mcp_dap_server_k8s_forwa.Dap.Message.{Fields}
use mcp_dap_server_k8s_forwa.Dap.Request.{Command}
use mcp_dap_server_k8s_forwa.Session.{Session, Env, ok}
use mcp_dap_server_k8s_forwa.Session.Calls.{commands}
use mcp_dap_server_k8s_forwa.Session.Points.{lines_of}
use mcp_dap_server_k8s_forwa.Session.Points.Books.{IsMap}
use mcp_dap_server_k8s_forwa.Session.Points.Mirror.{Mirrors}
use mcp_dap_server_k8s_forwa.Session.Points.Mirror.Calls.{Calls, Calls-Mirrors}
use mcp_dap_server_k8s_forwa.Session.Reinit.{reinitialize}
use mcp_dap_server_k8s_forwa.Session.Reinit.Handshake.{reinitialize-ok}
use mcp_dap_server_k8s_forwa.Session.Reinit.Adapter.{
  fresh, execute_all, execute_all-append, reinitialize-restores,
}

-- What a successful `reinitialize` has written makes a fresh adapter mirror the session.
reinitialize-Mirrors :
    (env : Env) (b : Backend) (args : Fields) (s : Session)
    → s.backend ≡ some b
    → attach_args b (pos 0) ≡ built args
    → IsMap s.breakpoints
    → (reinitialize env s).0 ≡ ok tt
    → (cs : List Command) × (commands (reinitialize env s).1 ≡ commands s ++ cs)
      × Mirrors (execute_all cs fresh) (reinitialize env s).1
reinitialize-Mirrors env b args s h e v k =
    let (cs, c, l, f) = reinitialize-restores env b args s h e v k in
    let (w, m, n, _, _, _) = reinitialize-ok env b args s h e k in
    (cs, c, ((λ g. l g ∙ ap (lines_of g) (sym m)), f ∙ sym n))

-- After a reconnect the session goes on as if nothing had happened to its breakpoints. Let
-- `reinitialize` succeed, on a map with one entry for a file, and let `breakpoint` and
-- `clear-breakpoints` then be called any number of times, each call successful. An adapter that has
-- just been started and carries out what has been written since has, for every file, exactly the
-- lines that the session then stores, and exactly the functions.
pub reinitialize-Mirrors_later :
    (env : Env) (b : Backend) (args : Fields) (s t : Session)
    → s.backend ≡ some b
    → attach_args b (pos 0) ≡ built args
    → IsMap s.breakpoints
    → (reinitialize env s).0 ≡ ok tt
    → Calls (reinitialize env s).1 t
    → (cs : List Command) × (commands t ≡ commands s ++ cs) × Mirrors (execute_all cs fresh) t
reinitialize-Mirrors_later env b args s t h e v k r =
    let (cs, c, m) = reinitialize-Mirrors env b args s h e v k in
    let (ds, d, n) = Calls-Mirrors (execute_all cs fresh) r m in
    (
      cs ++ ds,
      d ∙ (ap (λ xs. xs ++ ds) c ∙ append_assoc (commands s) cs ds),
      subst (λ a. Mirrors a t) (sym (execute_all-append cs ds fresh)) n,
    )
