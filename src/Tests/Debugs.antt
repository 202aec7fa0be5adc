-- ===== src/Tests/Debugs.antt =====
-- `debug` on concrete inputs, and the calls that the prompts show.
use mcp_dap_server_k8s_forwa.Prelude.{
  ℕ, ◌≡◌, refl, ℤ, pos, String, [], ◌∷◌, ◌++◌, map, Option, none, some, true, false, ltb, length,
}
use mcp_dap_server_k8s_forwa.Backend.{delve, tcp, transport_mode, attach_args, built}
use mcp_dap_server_k8s_forwa.Backend.Spawn.{spawned, spawn}
use mcp_dap_server_k8s_forwa.Dap.Request
use mcp_dap_server_k8s_forwa.Dap.Client.{
  Client, new_client, new_dap_client, set_reinit_hook, start_read_loop, new_request,
  send_and_register, raw_send,
}
use mcp_dap_server_k8s_forwa.Dap.Methods.{
  request, initialize_request, set_breakpoints_request, configuration_done_request,
}
use mcp_dap_server_k8s_forwa.Dap.Waits.{
  await_initialized_event, select, initialized_cases, channel_at, arriving, taken_initialized,
}
use mcp_dap_server_k8s_forwa.Dap.Bus.{
  new_subscription, fan_out_one, offer, replay, same_type, type_of,
}
use mcp_dap_server_k8s_forwa.Dap.Ring.Replay.{push_all}
use mcp_dap_server_k8s_forwa.Dap.Ring.{snapshot}
use mcp_dap_server_k8s_forwa.Session.{
  Session, said, Result, ok, err, call, after_reply, validated, await_initialized_or_fail,
}
use mcp_dap_server_k8s_forwa.Session.Calls.{commands}
use mcp_dap_server_k8s_forwa.Session.Lifecycle.{
  DebugParams, cleanup, register_tools, connects, select_backend, debug_mode, check_required,
}
use mcp_dap_server_k8s_forwa.Session.Startup.{
  stops_on_entry, start_command, launch_and_configure, set_initial, set_initial_one, begin_session,
}
use mcp_dap_server_k8s_forwa.Session.Debug.{
  World, attach_ready, stop_event, terminated_event, check_params, debug_port, spawn_and_connect,
  start_session, first_context, wait_loop, debug,
}
use mcp_dap_server_k8s_forwa.Session.Debug.Waiting.{entry_stop, wait_loop-stops}
use mcp_dap_server_k8s_forwa.Session.Debug.Accepted.{Startable, check_params-Startable}
use mcp_dap_server_k8s_forwa.Session.Debug.Refused.{debug-refused}
use mcp_dap_server_k8s_forwa.Session.Debug.Attach.{started_commands, debug-attaches}
use mcp_dap_server_k8s_forwa.Prompts.{is_c_family, language_or_go, debugger_for, mode_for}
use mcp_dap_server_k8s_forwa.Prompts.Source.{source_call, source_for}
use mcp_dap_server_k8s_forwa.Prompts.CoreDump.{core_call, core_for}
use mcp_dap_server_k8s_forwa.Prompts.Working.{Shows, Works, shown_params, prompts-Works}
use mcp_dap_server_k8s_forwa.Tests.Sessions.{session}
use mcp_dap_server_k8s_forwa.Tests.Runs.{adapter, remote, backend}

abbrev world : Option ℕ → World
world dialled = record {
  env = adapter;
  host = record {
    stdin_pipe = none;
    stdout_pipe = none;
    start = none;
    pid = 77;
    output = "DAP server listening at: 127.0.0.1:38697\n" ∷ [];
    output_end = "EOF";
  };
  gdb_found = some "/usr/bin/gdb";
  cwd = "/src";
  dialled = dialled;
  pipes = 9;
  sub_counter = 0;
  arrivals = [];
}

abbrev local_session : Session
local_session = register_tools ""

abbrev params : String → DebugParams
params mode = record (shown_params mode "/src/main.go" "" "") {
  breakpoints = record { file = "main.go"; line = pos 42; function = "" } ∷ [];
}

-- `attach` without a process.
refused :
    (check_params (world none) (params "attach") (cleanup local_session)).0
    ≡ err (said "processId is required for attach mode")
unfolding check_params debug_mode check_required cleanup register_tools
refused = refl

debug-refused_example :
    debug (world none) (params "attach") local_session
    ≡ (err (said "processId is required for attach mode"), cleanup local_session)
debug-refused_example =
    debug-refused (world none) (params "attach") local_session
      (said "processId is required for attach mode") refused

accepted :
    (check_params (world none) (params "source") (cleanup local_session)).0 ≡ ok ("source", delve)
unfolding check_params debug_mode check_required select_backend cleanup register_tools
accepted = refl

check_params-Startable_example : Startable (world none) (params "source") true "source" delve
check_params-Startable_example =
    check_params-Startable (world none) (params "source") (cleanup local_session) true "source"
      delve accepted

announced : (spawn (world none).host delve (debug_port "")).0 ≡ spawned (some 77) "127.0.0.1:38697"
unfolding spawn debug_port
announced = refl

over_tcp : transport_mode delve ≡ tcp
unfolding transport_mode
over_tcp = refl

-- On a server that is given, any mode becomes `attach`.
connected :
    (check_params (world (some 5)) (params "source") (cleanup session)).0 ≡ ok ("attach", backend)
unfolding check_params debug_mode check_required select_backend cleanup register_tools
connected = refl

remote_args : attach_args backend (params "source").process_id ≡ built remote
unfolding attach_args
remote_args = refl

attached : (debug (world (some 5)) (params "source") session).0 ≡ ok (attach_ready true)
unfolding debug check_params debug_mode check_required select_backend cleanup register_tools
    spawn_and_connect new_dap_client set_reinit_hook start_read_loop start_session
    initialize_request call after_reply launch_and_configure stops_on_entry start_command
    await_initialized_or_fail await_initialized_event select initialized_cases channel_at arriving
    taken_initialized new_subscription fan_out_one offer replay same_type type_of push_all snapshot
    set_initial set_initial_one validated request new_request send_and_register raw_send
    set_breakpoints_request configuration_done_request begin_session first_context attach_args
    transport_mode
attached = refl

debug-attaches_example :
    let r = (debug (world (some 5)) (params "source") session).1 in
    (attach_ready true ≡ attach_ready (ltb 0 (length (params "source").breakpoints)))
    × (commands r ≡ started_commands backend remote (params "source"))
    × (r.breakpoints ≡ session.breakpoints)
    × (r.function_breakpoints ≡ session.function_breakpoints)
debug-attaches_example =
    debug-attaches (world (some 5)) (params "source") session backend remote (attach_ready true)
      connected remote_args attached

abbrev running_client : Client
running_client = start_read_loop (new_client 1 "localhost:24010" true 0)

healthy : running_client.stale ≡ false
unfolding start_read_loop new_client
healthy = refl

abbrev waited : Result ℤ × Session
waited =
    wait_loop adapter
      (map entry_stop (pos 1 ∷ pos 4 ∷ [])
        ++ (stop_event "breakpoint" (pos 7) ∷ terminated_event ∷ []))
      session

wait_loop-stops_example :
    (waited.0 ≡ ok (pos 7))
    × (commands waited.1 ≡ commands session ++ map Request.continues (pos 1 ∷ pos 4 ∷ []))
    × (waited.1.stopped_thread_id ≡ pos 7)
wait_loop-stops_example =
    wait_loop-stops adapter (pos 1 ∷ pos 4 ∷ []) "breakpoint" (pos 7) (terminated_event ∷ [])
      session running_client refl healthy (λ n. refl) refl

not_connected : connects local_session.backend ≡ false
unfolding register_tools
not_connected = refl

prompts-Works_example :
    let c = is_c_family (language_or_go "cpp") in
    Shows
      (source_call (mode_for c) "/src/a.cpp" (debugger_for c))
      (source_for "/src/a.cpp" (language_or_go "cpp") "" c)
    × Works
        (world none)
        (shown_params (mode_for c) "/src/a.cpp" "" (debugger_for c))
        local_session
        (mode_for c)
    × Shows
        (core_call "/src/a.cpp" "/tmp/core" (debugger_for c))
        (core_for "/src/a.cpp" "/tmp/core" c)
    × Works
        (world none)
        (shown_params "core" "/src/a.cpp" "/tmp/core" (debugger_for c))
        local_session
        "core"
prompts-Works_example =
    prompts-Works (world none) local_session "/usr/bin/gdb" "/src/a.cpp" "/tmp/core" "cpp" "" refl
      not_connected refl refl
