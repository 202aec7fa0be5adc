-- ===== src/Session/Startup.antt =====
-- tools.go: the part of `debug` from the launch or attach request to the registration of the tools.
pub mod Unstored
use mcp_dap_server_k8s_forwa.Prelude.{
  ℕ, ℤ, pos, String, List, [], ◌∷◌, Option, none, some, Bool, true, false, ◌&&◌, ◌||◌, not,
  if◌then◌else◌, str_eq, ltb_ℤ, eqb_ℤ, ◌==◌, length,
}
use mcp_dap_server_k8s_forwa.Backend.{
  Backend, Built, built, refused, launch_args, core_args, attach_args,
}
use mcp_dap_server_k8s_forwa.Dap.Message.{Response, Fields}
use mcp_dap_server_k8s_forwa.Dap.Request
use mcp_dap_server_k8s_forwa.Dap.Request.{Command}
use mcp_dap_server_k8s_forwa.Dap.Methods.{
  request, set_breakpoints_request, set_function_breakpoints_request, configuration_done_request,
}
use mcp_dap_server_k8s_forwa.Session.{
  Session, Env, connection_stale, backend_refused, Result, ok, err, Tool, pure, throw, ◌>>=◌, ◌>>◌,
  get, modify, wrapping, call, check_success, validated, time_now, await_initialized_or_fail,
}
use mcp_dap_server_k8s_forwa.Session.Control.{BreakpointSpec}
use mcp_dap_server_k8s_forwa.Session.Lifecycle.{DebugParams, register_session_tools}

-- `input.StopOnEntry || len(input.Breakpoints) == 0`
unfoldable pub stops_on_entry : Bool → List BreakpointSpec → Bool
stops_on_entry stop_on_entry breakpoints = stop_on_entry || (length breakpoints == 0)

abbrev launched : Built → Result Command
launched (built args) = ok (Request.launch args)
launched (refused e) = err (backend_refused e)

abbrev attached : Built → Result Command
attached (built args) = ok (Request.attach args)
attached (refused e) = err (backend_refused e)

-- The request that starts the session. In any other mode the switch sends nothing, and the await of
-- the response to request 0, which nobody has registered, ends in `ErrConnectionStale`.
unfoldable pub start_command : String → Backend → String → DebugParams → Bool → Result Command
start_command cwd backend mode p stop_on_entry =
    if str_eq mode "source" || str_eq mode "binary"
    then launched (launch_args cwd backend mode p.path stop_on_entry p.args)
    else (if str_eq mode "core"
        then launched (core_args backend p.path p.core_file_path)
        else (if str_eq mode "attach"
            then attached (attach_args backend p.process_id)
            else err connection_stale))

-- One of the initial breakpoints: it is sent alone, and not stored.
unfoldable pub set_initial_one : Env → BreakpointSpec → Tool (Unit {0})
set_initial_one env bp =
    if not (str_eq bp.function "")
    then validated env "unable to set function breakpoint"
        (set_function_breakpoints_request (bp.function ∷ []))
    else (if not (str_eq bp.file "") && ltb_ℤ (pos 0) bp.line
        then validated env "unable to set breakpoint"
            (set_breakpoints_request bp.file (bp.line ∷ []))
        else pure tt)

-- The loop over the initial breakpoints.
unfoldable pub set_initial : Env → List BreakpointSpec → Tool (Unit {0})
set_initial env [] = pure tt
set_initial env (bp ∷ bps) = do set_initial_one env bp; set_initial env bps

abbrev pub complete_configuration : Env → Tool (Unit {0})
complete_configuration env =
    validated env "unable to complete configuration" configuration_done_request

abbrev pub await_startup : Env → ℕ → Tool (Unit {0})
await_startup env since = wrapping "debug startup" (await_initialized_or_fail env since)

-- The instant of the start is noted as that of the last stop, and the tools are registered.
unfoldable pub begin_session : Env → Session → Session
begin_session env s = register_session_tools (record s { last_stop_at = time_now env s })

abbrev pub after_start : Env → ℕ → List BreakpointSpec → Response → Tool (Unit {0})
after_start env since breakpoints r = do
  check_success "unable to start debug session" r
  await_startup env since
  set_initial env breakpoints
  complete_configuration env
  modify (begin_session env)

-- From the request to the tools.
unfoldable pub launch_and_configure : Env → Command → List BreakpointSpec → Tool (Unit {0})
launch_and_configure env cmd breakpoints = do
  s ← get
  let since = time_now env s
  r ← call env (request cmd)
  after_start env since breakpoints r
