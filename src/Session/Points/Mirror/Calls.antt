-- ===== src/Session/Points/Mirror/Calls.antt =====
-- Sequences of the breakpoint tools of tools.go and an adapter.
use mcp_dap_server_k8s_forwa.Prelude.{◌≡◌, String, Bool, List, ◌++◌}
use mcp_dap_server_k8s_forwa.Dap.Request.{Command}
use mcp_dap_server_k8s_forwa.Session.{Session, Env, ok}
use mcp_dap_server_k8s_forwa.Session.Calls.{commands}
use mcp_dap_server_k8s_forwa.Session.Points.{Params, Answer, breakpoint, clear_breakpoints}
use mcp_dap_server_k8s_forwa.Session.Reinit.Adapter.{Adapter, execute_all}
use mcp_dap_server_k8s_forwa.Session.Points.Mirror.{Mirrors, Follows, Follows-refl, Follows-trans}
use mcp_dap_server_k8s_forwa.Session.Points.Mirror.Set.{breakpoint-Follows}
use mcp_dap_server_k8s_forwa.Session.Points.Mirror.Clear.{clear_breakpoints-Follows}

-- Sessions that successful calls of the two tools lead to, each call with an environment of its own.
pub data Calls (s : Session) : Session → Type 0 where
  none_yet : Calls s s
  then_set :
      {t : Session}
      → Calls s t
      → (env : Env) (p : Params) (x : Answer) → (breakpoint env p t).0 ≡ ok x
      → Calls s (breakpoint env p t).1
  then_cleared :
      {t : Session}
      → Calls s t
      → (env : Env) (file : String) (everything : Bool) (x : Answer)
      → (clear_breakpoints env file everything t).0 ≡ ok x
      → Calls s (clear_breakpoints env file everything t).1

Calls-Follows : {s t : Session} → Calls s t → Follows s t
Calls-Follows {s} none_yet = Follows-refl s
Calls-Follows {s} (then_set {t} r env p x h) =
    Follows-trans s t (breakpoint env p t).1 (Calls-Follows r) (breakpoint-Follows env p t x h)
Calls-Follows {s} (then_cleared {t} r env file everything x h) =
    Follows-trans s t (clear_breakpoints env file everything t).1 (Calls-Follows r)
      (clear_breakpoints-Follows env file everything t x h)

-- Let an adapter that carries out what is written to it mirror the stored breakpoints of `s`: for
-- every file it has exactly the stored lines, and exactly the stored functions. After any sequence of
-- successful calls of `breakpoint` and `clear-breakpoints` from `s`, each with an environment and
-- parameters of its own, the commands written since then take that adapter to one that mirrors the
-- stored breakpoints of the session reached.
pub Calls-Mirrors :
    {s t : Session} (a : Adapter)
    → Calls s t
    → Mirrors a s
    → (cs : List Command) × (commands t ≡ commands s ++ cs) × Mirrors (execute_all cs a) t
Calls-Mirrors a r m = let (cs, e, f) = Calls-Follows r in (cs, e, f a m)
