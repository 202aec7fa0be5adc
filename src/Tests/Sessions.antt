-- ===== src/Tests/Sessions.antt =====
-- The tools of tools.go on concrete inputs.
use mcp_dap_server_k8s_forwa.Prelude.{
  ℕ, pos, ◌≡◌, ◌≢◌, refl, [], ◌∷◌, ◌++◌, none, some, true, String, eq_iff, str_eq, Bool-cases, inl,
  inr,
}
use mcp_dap_server_k8s_forwa.Dap.Message.{Body, Breakpoint, set_breakpoints_body, no_capabilities}
use mcp_dap_server_k8s_forwa.Dap.Request
use mcp_dap_server_k8s_forwa.Dap.Request.{Command}
use mcp_dap_server_k8s_forwa.Dap.Message.{initialized, terminated}
use mcp_dap_server_k8s_forwa.Dap.Waits.{event_case, termination_case, canceled}
use mcp_dap_server_k8s_forwa.Dap.Client.{
  new_client, start_read_loop, new_request, send_and_register, raw_send,
}
use mcp_dap_server_k8s_forwa.Dap.Methods.{request, set_breakpoints_request}
use mcp_dap_server_k8s_forwa.Session.{
  Session, Env, answered, ok, err, connection_stale, dropped, wrapped, call, typed_call,
}
use mcp_dap_server_k8s_forwa.Session.Calls.{commands}
use mcp_dap_server_k8s_forwa.Session.Lifecycle.{
  register_tools, register_session_tools, cleanup, gated_tools,
}
use mcp_dap_server_k8s_forwa.Session.Lifecycle.Tools.{cleanup-leaves_gated_tools}
use mcp_dap_server_k8s_forwa.Session.Lifecycle.{Stopped, stop}
use mcp_dap_server_k8s_forwa.Session.Lifecycle.Over.{IsEnded, IsIdle, stop-IsIdle}
use mcp_dap_server_k8s_forwa.Session.Points.{
  Params, set_at, breakpoint, breakpoint_at_line, lines_of,
}
use mcp_dap_server_k8s_forwa.Session.Points.Books.{IsMap}
use mcp_dap_server_k8s_forwa.Session.Points.Persist.{
  IsUnique, IsValid, breakpoint-set_at, breakpoint-fails, breakpoint-IsValid,
}

-- A session with a stored line and a stored function, on a connection that is up.
abbrev pub session : Session
session = record (register_tools "localhost:24010") {
  client = some (start_read_loop (new_client 1 "localhost:24010" true 0));
  breakpoints = ("main.go", pos 12 ∷ []) ∷ [];
  function_breakpoints = "main.run" ∷ [];
}

-- An adapter that answers every request with success and the body `f n`.
abbrev pub answering : (ℕ → Body) → Env
answering f = record {
  written = λ n. none;
  answer = λ n. answered (record { request_seq = n; success = true; message = ""; body = f n });
  wait = λ n. record {
    before = [];
    comes = initialized ∷ terminated ∷ [];
    order = event_case ∷ termination_case ∷ [];
    ctx_error = canceled;
  };
  now = λ n. n;
}

abbrev pub verified : Breakpoint
verified = record { id = pos 2; verified = true; message = ""; line = pos 30 }

abbrev pub accepting : Env
accepting = answering (λ n. set_breakpoints_body (verified ∷ []))

-- An adapter whose connection is lost at the first request.
abbrev pub losing : Env
losing = record accepting { answer = λ n. dropped }

abbrev pub line_30 : Params
line_30 = record { file = "main.go"; line = pos 30; function = "" }

pub set_at_30 : (breakpoint accepting line_30 session).0 ≡ ok (set_at (pos 2) "main.go" (pos 30))
unfolding breakpoint breakpoint_at_line lines_of register_tools start_read_loop new_client
    typed_call call set_breakpoints_request request new_request send_and_register raw_send
set_at_30 = refl

abbrev util : String
util = "util.go"

other_file : util ≢ line_30.file
other_file = λ e. absurd (cc ((eq_iff util "main.go").1 e))

breakpoint-set_at_example :
    let t = (breakpoint accepting line_30 session).1 in
    let lines = lines_of "main.go" session.breakpoints ++ (pos 30 ∷ []) in
    (commands t ≡ commands session ++ (Request.set_breakpoints "main.go" lines ∷ []))
    × (lines_of "main.go" t.breakpoints ≡ lines)
    × (lines_of "util.go" t.breakpoints ≡ lines_of "util.go" session.breakpoints)
    × (t.function_breakpoints ≡ session.function_breakpoints)
breakpoint-set_at_example =
    breakpoint-set_at accepting line_30 session (pos 2) (pos 30) "main.go" "util.go" set_at_30
      other_file

lost_at_30 :
    (breakpoint losing line_30 session).0
    ≡ err (wrapped "unable to set breakpoint" connection_stale)
unfolding breakpoint breakpoint_at_line lines_of register_tools start_read_loop new_client
    typed_call call set_breakpoints_request request new_request send_and_register raw_send
lost_at_30 = refl

breakpoint-fails_example :
    let t = (breakpoint losing line_30 session).1 in
    (t.breakpoints ≡ session.breakpoints) × (t.function_breakpoints ≡ session.function_breakpoints)
breakpoint-fails_example =
    breakpoint-fails losing line_30 session (wrapped "unable to set breakpoint" connection_stale)
      lost_at_30

pub session-IsMap : IsMap session.breakpoints
session-IsMap = (tt, tt)

session-IsUnique : IsUnique session
unfolding lines_of
session-IsUnique g = elim (Bool-cases (str_eq "main.go" g)) [
  | inl e ↦ rw e (refl, tt)
  | inr e ↦ rw e tt
]

breakpoint-IsValid_example : IsValid (breakpoint accepting line_30 session).1
breakpoint-IsValid_example =
    breakpoint-IsValid accepting line_30 session (session-IsMap, session-IsUnique)

-- The session before `debug`, with the capabilities that an adapter has reported.
abbrev restarting : Session
restarting = record (register_tools "") {
  capabilities = record no_capabilities { supports_restart_request = true };
}

only_debug : restarting.tools ≡ "debug" ∷ []
unfolding register_tools
only_debug = refl

cleanup-leaves_gated_tools_example :
    let t = cleanup (register_session_tools restarting) in
    (t.tools ≡ gated_tools restarting.capabilities ++ ("debug" ∷ []))
    × (t.client ≡ none)
    × (t.breakpoints ≡ restarting.breakpoints)
    × (t.function_breakpoints ≡ restarting.function_breakpoints)
cleanup-leaves_gated_tools_example = cleanup-leaves_gated_tools restarting only_debug

stop-IsIdle_example :
    ((r : Stopped) × ((stop losing true session).0 ≡ ok r))
    × IsEnded session (stop losing true session).1
    × IsIdle (stop losing true session).1
stop-IsIdle_example = stop-IsIdle losing true session
