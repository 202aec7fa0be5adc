-- ===== src/Session/Lifecycle.antt =====
-- tools.go: the list of tools that the MCP server offers, `cleanup`, `stop`, and what `debug`
-- checks before it starts anything.
pub mod Tools
pub mod Over
use mcp_dap_server_k8s_forwa.Prelude.{
  ℕ, ℤ, pos, negsuc, String, List, [], ◌∷◌, ◌++◌, Option, none, some, Bool, true, false, ◌&&◌, ◌||◌,
  not, if◌then◌else◌, any, keep, str_eq, eqb_ℤ,
}
use mcp_dap_server_k8s_forwa.Backend.{Backend, delve, gdb, connect}
use mcp_dap_server_k8s_forwa.Dap.Message.{Capabilities, no_capabilities}
use mcp_dap_server_k8s_forwa.Dap.Methods.{disconnect_request}
use mcp_dap_server_k8s_forwa.Session.Control.{BreakpointSpec}
use mcp_dap_server_k8s_forwa.Session.{
  Session, Env, Error, said, naming, Result, ok, err, Tool, pure, throw, ◌>>=◌, ◌>>◌, get, modify,
  validated,
}

-- `append(tools, name)` if the flag is set.
abbrev gated : Bool → String → List String
gated flag name = if flag then name ∷ [] else []

abbrev pub always : List String
always =
    "stop" ∷ "breakpoint" ∷ "clear-breakpoints" ∷ "continue" ∷ "wait-for-stop" ∷ "step" ∷ "pause"
    ∷ "context" ∷ "evaluate" ∷ "info" ∷ "reconnect" ∷ []

abbrev pub gated_tools : Capabilities → List String
gated_tools c =
    gated c.supports_restart_request "restart"
    ++ (gated c.supports_set_variable "set-variable"
        ++ gated c.supports_disassemble_request "disassemble")

-- `sessionToolNames`
unfoldable pub session_tool_names : Session → List String
session_tool_names s = always ++ gated_tools s.capabilities

-- The server's registry of tools: `RemoveTools`, and `AddTool`, which replaces a tool of the name.
unfoldable pub remove_tools : List String → List String → List String
remove_tools names tools = keep (λ t. not (any (λ n. str_eq n t) names)) tools

unfoldable pub add_tools : List String → List String → List String
unfolding remove_tools
add_tools names tools = remove_tools names tools ++ names

-- `registerSessionTools`
unfoldable pub register_session_tools : Session → Session
unfolding session_tool_names remove_tools add_tools
register_session_tools s = record s {
  tools = add_tools (session_tool_names s) (remove_tools ("debug" ∷ []) s.tools);
}

-- `unregisterSessionTools`
unfoldable pub unregister_session_tools : Session → Session
unfolding session_tool_names remove_tools add_tools
unregister_session_tools s = record s {
  tools = add_tools ("debug" ∷ []) (remove_tools (session_tool_names s) s.tools);
}

-- `registerTools`: the session that the server starts with.
unfoldable pub register_tools : String → Session
register_tools connect_addr = record {
  cmd = none;
  client = none;
  backend = if str_eq connect_addr "" then none else some (connect connect_addr 5);
  capabilities = no_capabilities;
  launch_mode = "";
  program_path = "";
  program_args = [];
  core_file_path = "";
  stopped_thread_id = pos 0;
  last_frame_id = negsuc 0;
  last_stop_at = 0;
  breakpoints = [];
  function_breakpoints = [];
  tools = "debug" ∷ [];
}

-- `cleanup`: the client is closed and the process killed. The stored breakpoints are not touched,
-- and the capabilities are reset before the tools are taken off.
unfoldable pub cleanup : Session → Session
unfolding unregister_session_tools
cleanup s = unregister_session_tools (record s {
  client = none;
  cmd = none;
  launch_mode = "";
  program_path = "";
  program_args = [];
  core_file_path = "";
  capabilities = no_capabilities;
  stopped_thread_id = pos 0;
  last_frame_id = negsuc 0;
  last_stop_at = 0;
})

pub data Stopped : Type 0 where
  no_session detached session_stopped : Stopped

-- `if input.Detach && ds.client != nil { ... }`: the errors of the request are logged only.
unfoldable pub detach_then_cleanup : Env → Session → Session
unfolding cleanup
detach_then_cleanup env s = cleanup (validated env "disconnect" (disconnect_request false) s).1

-- `stop`
unfoldable pub stop_with : Env → Bool → Option ℕ → Tool Stopped
unfolding cleanup detach_then_cleanup
stop_with env detach cmd s = elim s.client [
  | none ↦ elim cmd [ none ↦ (ok no_session, s) | some p ↦ (ok session_stopped, cleanup s) ]
  | some c ↦
      if detach then (ok detached, detach_then_cleanup env s) else (ok session_stopped, cleanup s)
]

unfoldable pub stop : Env → Bool → Tool Stopped
unfolding stop_with
stop env detach s = stop_with env detach s.cmd s

-- `DebugParams`
pub record DebugParams : Type 0 where
  pub mode : String
  pub path : String
  pub args : List String
  pub core_file_path : String
  pub process_id : ℤ
  pub breakpoints : List BreakpointSpec
  pub stop_on_entry : Bool
  pub port : String
  pub debugger : String
  pub gdb_path : String

abbrev pub connects : Option Backend → Bool
connects (some (connect addr timeout)) = true
connects _ = false

-- The mode of the session.
unfoldable pub debug_mode : Bool → DebugParams → Result String
debug_mode true p = ok "attach"
debug_mode false p =
    if any (λ m. str_eq m p.mode) ("source" ∷ "binary" ∷ "core" ∷ "attach" ∷ [])
    then ok p.mode
    else err (naming "invalid mode" p.mode)

-- The parameters that the mode requires.
unfoldable pub check_required : Bool → String → DebugParams → Option Error
check_required connected mode p =
    if str_eq mode "attach" && (not connected && eqb_ℤ p.process_id (pos 0))
    then some (said "processId is required for attach mode")
    else (if not (str_eq mode "attach") && str_eq p.path ""
        then some (naming "path is required for mode" mode)
        else (if str_eq mode "core" && str_eq p.core_file_path ""
            then some (said "coreFilePath is required for core mode")
            else none))

-- The backend: `found` is the path that `exec.LookPath("gdb")` returns, if any.
unfoldable pub select_backend : Option String → Option Backend → DebugParams → Result Backend
select_backend found (some (connect addr timeout)) p = ok (connect addr timeout)
select_backend found _ p =
    if str_eq p.debugger "" || str_eq p.debugger "delve"
    then ok delve
    else (if str_eq p.debugger "gdb"
        then (if str_eq p.gdb_path ""
            then (elim found [
              | none ↦ err (said "GDB not found in PATH")
              | some path ↦ ok (gdb path)
            ])
            else ok (gdb p.gdb_path))
        else err (naming "unsupported debugger" p.debugger))
