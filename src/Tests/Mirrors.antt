-- ===== src/Tests/Mirrors.antt =====
-- The breakpoint tools of tools.go beside an adapter, on concrete inputs.
use mcp_dap_server_k8s_forwa.Prelude.{
  pos, ◌≡◌, refl, List, [], ◌∷◌, ◌++◌, if◌then◌else◌, str_eq, false, sym, ap, ◌∙◌, String,
  Bool-cases, inl, inr, eq_iff, eq_refl, if_true, if_false,
}
use mcp_dap_server_k8s_forwa.Dap.Request.{Command}
use mcp_dap_server_k8s_forwa.Dap.Client.{
  new_client, start_read_loop, new_request, send_and_register, raw_send,
}
use mcp_dap_server_k8s_forwa.Dap.Methods.{request, set_breakpoints_request}
use mcp_dap_server_k8s_forwa.Dap.Waits.{
  await_initialized_event, select, initialized_cases, channel_at, arriving, taken_initialized,
}
use mcp_dap_server_k8s_forwa.Dap.Bus.{
  new_subscription, fan_out_one, offer, replay, same_type, type_of,
}
use mcp_dap_server_k8s_forwa.Dap.Ring.Replay.{push_all}
use mcp_dap_server_k8s_forwa.Dap.Ring.{snapshot}
use mcp_dap_server_k8s_forwa.Session.{Session, ok, typed_call, call, validated, after_reply}
use mcp_dap_server_k8s_forwa.Session.Calls.{commands}
use mcp_dap_server_k8s_forwa.Session.Lifecycle.{register_tools}
use mcp_dap_server_k8s_forwa.Session.Points.{
  set_at, cleared_in, breakpoint, breakpoint_at_line, lines_of, clear_breakpoints, clear_file,
}
use mcp_dap_server_k8s_forwa.Session.Points.Books.{str_eq-ne, str_eq-false}
use mcp_dap_server_k8s_forwa.Session.Points.Mirror.{Mirrors}
use mcp_dap_server_k8s_forwa.Session.Points.Mirror.Calls.{
  Calls, none_yet, then_set, then_cleared, Calls-Mirrors,
}
use mcp_dap_server_k8s_forwa.Session.Reinit.Adapter.{Adapter, execute_all, fresh}
use mcp_dap_server_k8s_forwa.Backend.{attach_args}
use mcp_dap_server_k8s_forwa.Dap.Client.{send_and_register_raw}
use mcp_dap_server_k8s_forwa.Dap.Methods.{
  request_raw, initialize_request_raw, attach_request_raw, set_breakpoints_request_raw,
  set_function_breakpoints_request_raw, configuration_done_request_raw,
}
use mcp_dap_server_k8s_forwa.Session.{await_initialized_or_fail}
use mcp_dap_server_k8s_forwa.Session.Points.Mirror.Restored.{reinitialize-Mirrors_later}
use mcp_dap_server_k8s_forwa.Session.Reinit.{
  reinitialize, reinitialize_with, handshake, initialize_raw, attach_again, reapply, reapply_files,
  reapply_functions,
}
use mcp_dap_server_k8s_forwa.Tests.Runs.{
  adapter, backend, remote, session-backend, remote-args, reinitialized,
}
use mcp_dap_server_k8s_forwa.Tests.Sessions.{session, accepting, line_30, set_at_30, session-IsMap}

-- An adapter with the breakpoints of `session`.
abbrev delve : Adapter
delve = record {
  lines = λ g. if str_eq g "main.go" then pos 12 ∷ [] else [];
  functions = "main.run" ∷ [];
}

delve-Mirrors_session : Mirrors delve session
unfolding lines_of
delve-Mirrors_session = (lines_agree, refl)
  where
    lines_agree : (g : String) → delve.lines g ≡ lines_of g session.breakpoints
    lines_agree g = elim (Bool-cases (str_eq g "main.go")) [
      | inl e ↦
          if_true _ _ e
          ∙ sym (
              if_true _ _
                (ap (λ x. str_eq "main.go" x) ((eq_iff g "main.go").0 e) ∙ eq_refl "main.go"))
      | inr e ↦
          if_false _ _ e
          ∙ sym (if_false _ _ (str_eq-ne "main.go" g (λ q. str_eq-false g "main.go" e (sym q))))
    ]

abbrev with_30 : Session
with_30 = (breakpoint accepting line_30 session).1

cleared_main : (clear_breakpoints accepting "main.go" false with_30).0 ≡ ok (cleared_in "main.go")
unfolding clear_breakpoints clear_file breakpoint breakpoint_at_line lines_of register_tools
    start_read_loop new_client typed_call call validated after_reply set_breakpoints_request request
    new_request send_and_register raw_send
cleared_main = refl

-- A line is set, then the file is cleared.
abbrev two_calls : Calls session (clear_breakpoints accepting "main.go" false with_30).1
two_calls =
    then_cleared (then_set none_yet accepting line_30 (set_at (pos 2) "main.go" (pos 30)) set_at_30)
      accepting "main.go" false (cleared_in "main.go") cleared_main

Calls-Mirrors_example :
    let t = (clear_breakpoints accepting "main.go" false with_30).1 in
    (cs : List Command) × (commands t ≡ commands session ++ cs) × Mirrors (execute_all cs delve) t
Calls-Mirrors_example = Calls-Mirrors delve two_calls delve-Mirrors_session

abbrev reconnected : Session
reconnected = (reinitialize adapter session).1

set_after : (breakpoint accepting line_30 reconnected).0 ≡ ok (set_at (pos 2) "main.go" (pos 30))
unfolding breakpoint breakpoint_at_line lines_of typed_call set_breakpoints_request request
    reinitialize reinitialize_with handshake initialize_raw attach_again reapply reapply_files
    reapply_functions register_tools start_read_loop new_client validated call after_reply
    await_initialized_or_fail await_initialized_event select initialized_cases channel_at arriving
    taken_initialized new_subscription fan_out_one offer replay same_type type_of push_all snapshot
    request_raw initialize_request_raw attach_request_raw set_breakpoints_request_raw
    set_function_breakpoints_request_raw configuration_done_request_raw new_request
    send_and_register send_and_register_raw raw_send attach_args
set_after = refl

reinitialize-Mirrors_later_example :
    let t = (breakpoint accepting line_30 reconnected).1 in
    (cs : List Command) × (commands t ≡ commands session ++ cs) × Mirrors (execute_all cs fresh) t
reinitialize-Mirrors_later_example =
    reinitialize-Mirrors_later adapter backend remote session
      (breakpoint accepting line_30 reconnected).1 session-backend remote-args session-IsMap
      reinitialized
      (then_set none_yet accepting line_30 (set_at (pos 2) "main.go" (pos 30)) set_after)
