-- ===== src/Tests/Runs.antt =====
-- `reinitialize` and the tools that run and inspect the program, on concrete inputs.
use mcp_dap_server_k8s_forwa.Prelude.{
  String, ◌+◌, arith, inl, inr, pos, negsuc, ◌≡◌, refl, List, [], ◌∷◌, ◌++◌, Option, none, some,
  true, false, if◌then◌else◌, ◌==◌, str_eq, ltb_ℤ,
}
use mcp_dap_server_k8s_forwa.Backend.{redials, Backend, connect, attach_args, built}
use mcp_dap_server_k8s_forwa.Dap.Message.{
  initialize_body, stack_trace_body, evaluate_body, plain, no_capabilities, StackFrame, Fields,
  field, end, text,
}
use mcp_dap_server_k8s_forwa.Dap.Request
use mcp_dap_server_k8s_forwa.Dap.Request.{Command}
use mcp_dap_server_k8s_forwa.Dap.Client.{
  Client, new_client, start_read_loop, new_request, send_and_register, send_and_register_raw,
  raw_send,
}
use mcp_dap_server_k8s_forwa.Dap.Methods.{
  request, request_raw, set_breakpoints_request, continue_request, stack_trace_request,
  scopes_request, evaluate_request, initialize_request_raw, attach_request_raw,
  set_breakpoints_request_raw, set_function_breakpoints_request_raw, configuration_done_request_raw,
}
use mcp_dap_server_k8s_forwa.Dap.Waits.{
  await_initialized_event, select, initialized_cases, channel_at, arriving, taken_initialized,
}
use mcp_dap_server_k8s_forwa.Dap.Bus.{
  new_subscription, fan_out_one, offer, replay, same_type, type_of,
}
use mcp_dap_server_k8s_forwa.Dap.Ring.Replay.{push_all}
use mcp_dap_server_k8s_forwa.Dap.Ring.{snapshot}
use mcp_dap_server_k8s_forwa.Session.{
  Session, with_client, Env, ok, call, validated, typed_call, after_reply,
  await_initialized_or_fail, default_thread_id,
}
use mcp_dap_server_k8s_forwa.Session.Calls.{commands}
use mcp_dap_server_k8s_forwa.Session.Lifecycle.{register_tools}
use mcp_dap_server_k8s_forwa.Session.Points.{lines_of}
use mcp_dap_server_k8s_forwa.Session.Reinit.{
  reinitialize, reinitialize_with, handshake, initialize_raw, attach_again, reapply, reapply_files,
  reapply_functions,
}
use mcp_dap_server_k8s_forwa.Session.Reinit.Handshake.{reinit_commands, reinitialize-ok}
use mcp_dap_server_k8s_forwa.Session.Reinit.Adapter.{
  Adapter, fresh, execute_all, reinitialize-restores,
}
use mcp_dap_server_k8s_forwa.Session.Control.{
  BreakpointSpec, set_cursor, continue_execution, bounded_timeout, timeout_or_default,
}
use mcp_dap_server_k8s_forwa.Session.Control.Run.{continue_execution-replaces}
use mcp_dap_server_k8s_forwa.Session.Control.Snapshot.{
  target_frame, get_full_context, write_scopes_and_variables, scopes_unavailable,
}
use mcp_dap_server_k8s_forwa.Session.Query.{evaluate_expression, eval_context, eval_frame}
use mcp_dap_server_k8s_forwa.Session.Query.Frame.{evaluate-in_last_frame}
use mcp_dap_server_k8s_forwa.Session.Reconnecting.{Tick, can_redial, millis, status_of, reconnect}
use mcp_dap_server_k8s_forwa.Session.Reconnecting.Outcomes.{IsWaiting, reconnect-ends}
use mcp_dap_server_k8s_forwa.Session.Startup.{set_initial, set_initial_one}
use mcp_dap_server_k8s_forwa.Session.Startup.Unstored.{initial_commands, set_initial-unstored}
use mcp_dap_server_k8s_forwa.Tests.Sessions.{session, session-IsMap, accepting, answering}

abbrev pub adapter : Env
adapter = answering (λ n. if n == 1 then initialize_body no_capabilities else plain)

abbrev pub remote : Fields
remote = field "request" (text "attach") (field "mode" (text "remote") end)

abbrev pub backend : Backend
backend = connect "localhost:24010" 5

pub session-backend : session.backend ≡ some backend
unfolding register_tools
session-backend = refl

pub remote-args : attach_args backend (pos 0) ≡ built remote
unfolding attach_args
remote-args = refl

pub reinitialized : (reinitialize adapter session).0 ≡ ok tt
unfolding reinitialize reinitialize_with handshake initialize_raw attach_again reapply reapply_files
    reapply_functions register_tools start_read_loop new_client validated call after_reply
    await_initialized_or_fail await_initialized_event select initialized_cases channel_at arriving
    taken_initialized new_subscription fan_out_one offer replay same_type type_of push_all snapshot
    request_raw initialize_request_raw attach_request_raw set_breakpoints_request_raw
    set_function_breakpoints_request_raw configuration_done_request_raw new_request
    send_and_register_raw raw_send attach_args
reinitialized = refl

reinitialize-ok_example :
    let t = (reinitialize adapter session).1 in
    (commands t
      ≡ commands session
        ++ reinit_commands backend remote session.breakpoints session.function_breakpoints)
    × (t.breakpoints ≡ session.breakpoints)
    × (t.function_breakpoints ≡ session.function_breakpoints)
    × (t.stopped_thread_id ≡ pos 0)
    × (t.last_frame_id ≡ negsuc 0)
    × (t.last_stop_at ≡ 0)
reinitialize-ok_example =
    reinitialize-ok adapter backend remote session session-backend remote-args reinitialized

reinitialize-restores_example :
    (cs : List Command) × (commands (reinitialize adapter session).1 ≡ commands session ++ cs)
    × ((g : String) → (execute_all cs fresh).lines g ≡ lines_of g session.breakpoints)
    × ((execute_all cs fresh).functions ≡ session.function_breakpoints)
reinitialize-restores_example =
    reinitialize-restores adapter backend remote session session-backend remote-args session-IsMap
      reinitialized

abbrev cursor : Option BreakpointSpec
cursor = some (record { file = "main.go"; line = pos 50; function = "" })

continued : (continue_execution accepting (pos 0) cursor session).0 ≡ ok (pos 1)
unfolding continue_execution set_cursor register_tools start_read_loop new_client validated call
    after_reply default_thread_id set_breakpoints_request continue_request request new_request
    send_and_register raw_send
continued = refl

named_file : str_eq "main.go" "" ≡ false
named_file = refl

abbrev told : Adapter
told = record { lines = λ f. pos 12 ∷ []; functions = [] }

continue_execution-replaces_example :
    let t = (continue_execution accepting (pos 0) cursor session).1 in
    (cs : List Command) × (commands t ≡ commands session ++ cs)
    × ((execute_all cs told).lines "main.go" ≡ pos 50 ∷ [])
    × (t.breakpoints ≡ session.breakpoints)
continue_execution-replaces_example =
    continue_execution-replaces accepting (pos 0) (pos 1) 49 "main.go" session told named_file
      continued

abbrev top : StackFrame
top = record {
  id = pos 1000;
  name = "main.main";
  source_path = some "main.go";
  line = pos 12;
  presentation_hint = "";
}

-- An adapter with a stack of one frame, and one that evaluates.
abbrev stopped_adapter : Env
stopped_adapter = answering (λ n. if n == 1 then stack_trace_body (top ∷ []) else plain)

abbrev evaluating : Env
evaluating = answering (λ n. evaluate_body "42" "int")

context_fetched :
    (get_full_context stopped_adapter (pos 1) (pos 0) (pos 20) session).0
    ≡ ok (record { frames = top ∷ []; scopes = scopes_unavailable })
unfolding get_full_context write_scopes_and_variables target_frame register_tools start_read_loop
    new_client typed_call call after_reply stack_trace_request scopes_request request new_request
    send_and_register raw_send
context_fetched = refl

top-frame : ltb_ℤ (target_frame (pos 0) (top ∷ [])) (pos 0) ≡ false
unfolding target_frame
top-frame = refl

was_evaluated :
    (evaluate_expression evaluating "n" none ""
      (get_full_context stopped_adapter (pos 1) (pos 0) (pos 20) session).1).0
    ≡ ok ("42", "int")
unfolding evaluate_expression get_full_context write_scopes_and_variables target_frame
    register_tools start_read_loop new_client typed_call call after_reply stack_trace_request
    scopes_request evaluate_request eval_frame eval_context request new_request send_and_register
    raw_send
was_evaluated = refl

evaluate-in_last_frame_example :
    let t = (get_full_context stopped_adapter (pos 1) (pos 0) (pos 20) session).1 in
    commands (evaluate_expression evaluating "n" none "" t).1
    ≡ commands t ++ (Request.evaluate "n" (target_frame (pos 0) (top ∷ [])) (eval_context "") ∷ [])
evaluate-in_last_frame_example =
    evaluate-in_last_frame stopped_adapter evaluating (pos 1) (pos 0) (pos 20) session
      (record { frames = top ∷ []; scopes = scopes_unavailable }) "n" "" ("42", "int")
      context_fetched top-frame was_evaluated

-- The reconnect loop is at its second attempt after 100 ms, and has recovered after 1200 ms.
abbrev pub dropped_client : Client
dropped_client = record (start_read_loop (new_client 1 "localhost:24010" true 0)) { stale = true }

abbrev pub stale_session : Session
stale_session = record session { client = some dropped_client }

abbrev first_tick : Tick
first_tick = record {
  now = 5100;
  client = record dropped_client { reconnect_attempts = 2 };
  over = none;
}

abbrev last_tick : Tick
last_tick = record {
  now = 6200;
  client = record dropped_client { reconnect_attempts = 3; stale = false };
  over = none;
}

redialling : can_redial stale_session.backend ≡ true
unfolding register_tools redials
redialling = refl

first_tick-IsWaiting : IsWaiting (5000 + millis (bounded_timeout (pos 0))) first_tick
unfolding bounded_timeout timeout_or_default
first_tick-IsWaiting = record { still = refl; in_time = omega arith; on = refl }

reconnect-ends_example :
    reconnect false (pos 0) 5000 ((first_tick ∷ []) ++ (last_tick ∷ [])) stale_session ≡ (
      some (ok (status_of 5000 dropped_client.reconnect_attempts 6200 last_tick.client)),
      with_client last_tick.client stale_session,
    )
reconnect-ends_example =
    reconnect-ends false (pos 0) 5000 (first_tick ∷ []) [] last_tick dropped_client stale_session
      refl redialling (inr refl) (first_tick-IsWaiting, tt) refl (inl refl)

abbrev two_lines : List BreakpointSpec
two_lines =
    record { file = "main.go"; line = pos 5; function = "" }
    ∷ record { file = "main.go"; line = pos 9; function = "" }
    ∷ []

both_set : (set_initial accepting two_lines session).0 ≡ ok tt
unfolding set_initial set_initial_one register_tools start_read_loop new_client validated call
    after_reply set_breakpoints_request request new_request send_and_register raw_send
both_set = refl

set_initial-unstored_example :
    let t = (set_initial accepting two_lines session).1 in
    (commands t ≡ commands session ++ initial_commands two_lines)
    × (t.breakpoints ≡ session.breakpoints)
    × (t.function_breakpoints ≡ session.function_breakpoints)
set_initial-unstored_example = set_initial-unstored accepting two_lines session both_set
