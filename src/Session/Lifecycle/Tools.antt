-- ===== src/Session/Lifecycle/Tools.antt =====
-- Which tools are offered before, during and after a session.
use mcp_dap_server_k8s_forwa.Prelude.{◌≡◌, refl, ap, ◌∙◌, [], ◌∷◌, ◌++◌, Bool, true, false, none}
use mcp_dap_server_k8s_forwa.Dap.Message.{Capabilities}
use mcp_dap_server_k8s_forwa.Session.{Session}
use mcp_dap_server_k8s_forwa.Session.Lifecycle.{
  always, gated_tools, session_tool_names, remove_tools, add_tools, register_session_tools,
  unregister_session_tools, cleanup,
}

-- When only `debug` is offered, `registerSessionTools` leaves exactly the tools of the session:
-- those that every session has and those that the capabilities bring. `debug` is not among them.
pub register_session_tools-tools :
    (s : Session)
    → s.tools ≡ "debug" ∷ []
    → (register_session_tools s).tools ≡ always ++ gated_tools s.capabilities
unfolding register_session_tools session_tool_names add_tools remove_tools
register_session_tools-tools s h = rw h refl

abbrev with_flags : Bool → Bool → Bool → Capabilities → Capabilities
with_flags a b c k = record k {
  supports_restart_request = a;
  supports_set_variable = b;
  supports_disassemble_request = c;
}

-- What is left of the tools when those that are always there are removed.
remove-always :
    (a b c : Bool) (k : Capabilities)
    → let g = gated_tools (with_flags a b c k) in
      add_tools ("debug" ∷ []) (remove_tools always (always ++ g)) ≡ g ++ ("debug" ∷ [])
unfolding add_tools remove_tools
remove-always true true true k = refl
remove-always true true false k = refl
remove-always true false true k = refl
remove-always true false false k = refl
remove-always false true true k = refl
remove-always false true false k = refl
remove-always false false true k = refl
remove-always false false false k = refl

-- `cleanup` resets the capabilities before it asks for the names of the session's tools. So after
-- `registerSessionTools`, when only `debug` was offered before, it takes off only the tools that
-- every session has: those that the adapter's capabilities brought stay on offer beside `debug`,
-- with no client behind them. The stored breakpoints stay too.
pub cleanup-leaves_gated_tools :
    (s : Session)
    → s.tools ≡ "debug" ∷ []
    → let t = cleanup (register_session_tools s) in
      (t.tools ≡ gated_tools s.capabilities ++ ("debug" ∷ []))
      × (t.client ≡ none)
      × (t.breakpoints ≡ s.breakpoints)
      × (t.function_breakpoints ≡ s.function_breakpoints)
unfolding cleanup unregister_session_tools session_tool_names register_session_tools
cleanup-leaves_gated_tools s h =
    let k = s.capabilities in
    (
      ap (λ ts. add_tools ("debug" ∷ []) (remove_tools always ts))
            (register_session_tools-tools s h)
          ∙ remove-always k.supports_restart_request k.supports_set_variable
              k.supports_disassemble_request k,
      refl,
      refl,
      refl,
    )
