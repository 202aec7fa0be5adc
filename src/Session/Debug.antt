-- ===== src/Session/Debug.antt =====
-- tools.go: `debug` as a whole. It ends the old session, checks its parameters, spawns and connects
-- the adapter, starts the program, and returns what the mode asks for.
pub mod Waiting
pub mod Accepted
pub mod Refused
pub mod Dialled
pub mod Attach
use Prim.Native.String
use mcp_dap_server_k8s_forwa.Prelude.{
  ℕ, ℤ, pos, String, Bool, true, false, List, [], ◌∷◌, Option, none, some, ◌&&◌, not, if◌then◌else◌,
  ltb, length, str_eq, eqb_ℤ,
}
use mcp_dap_server_k8s_forwa.Text.{has_prefix}
use mcp_dap_server_k8s_forwa.Backend.{
  Backend, Transport, tcp, stdio, transport_mode, adapter_id, redials, BackendError,
}
use mcp_dap_server_k8s_forwa.Backend.Spawn.{Host, Spawned, spawned, spawn_failed, spawn}
use mcp_dap_server_k8s_forwa.Dap.Message.{Capabilities}
use mcp_dap_server_k8s_forwa.Dap.Request.{Command}
use mcp_dap_server_k8s_forwa.Dap.Client.{
  Client, new_dap_client, new_dap_client_from_rwc, set_reinit_hook, start_read_loop,
}
use mcp_dap_server_k8s_forwa.Dap.Methods.{Sent, initialize_request, continue_request}
use mcp_dap_server_k8s_forwa.Session.{
  Session, Env, Error, CtxError, canceled, ctx, naming, wrapped, sending, not_started,
  connection_stale, connection_lost, backend_refused, Waited, waited_result, Result, ok, err, Tool,
  pure, throw, ◌>>=◌, ◌>>◌, get, lift, modify, with_client, call, time_now, await_stop,
}
use mcp_dap_server_k8s_forwa.Session.Control.{stopped_at}
use mcp_dap_server_k8s_forwa.Session.Control.Snapshot.{Context, get_full_context}
use mcp_dap_server_k8s_forwa.Session.Lifecycle.{
  DebugParams, connects, cleanup, debug_mode, check_required, select_backend,
}
use mcp_dap_server_k8s_forwa.Session.Reinit.{capabilities_of, put_capabilities}
use mcp_dap_server_k8s_forwa.Session.Startup.{stops_on_entry, start_command, launch_and_configure}

-- What one of the subscriptions of the last wait yields, in the order in which `select` takes them:
-- an event, a closed channel, or the end of the caller's context.
pub data Arrival : Type 0 where
  stop_event : String → ℤ → Arrival
  terminated_event : Arrival
  lost_event : String → Arrival
  channel_closed : Arrival
  context_done : CtxError → Arrival

-- All that `debug` meets: the host of the spawned process, where gdb is found, the working directory,
-- the socket that the dial or the pipes give, the counter of subscriptions, the adapter, and what comes
-- after the start.
pub record World : Type 0 where
  pub env : Env
  pub host : Host
  pub gdb_found : Option String
  pub cwd : String
  pub dialled : Option ℕ
  pub pipes : ℕ
  pub sub_counter : ℕ
  pub arrivals : List Arrival

-- What `debug` returns: a readiness message, with or without breakpoints, a context, or the message that
-- names the program.
pub data Started : Type 0 where
  attach_ready : Bool → Started
  at : Context → Started
  begun : String → Started

-- The port in the form that the spawned server takes.
abbrev with_colon : String → String
with_colon port = if has_prefix port ":" then port else String.◌++◌ ":" port

unfoldable pub debug_port : String → String
unfolding has_prefix
debug_port port = with_colon (if str_eq port "" then "0" else port)

abbrev pub required : Option Error → Tool (Unit {0})
required none = pure tt
required (some e) = throw e

abbrev pub keep_choice : String → Backend → Tool (String × Backend)
keep_choice mode b = do modify (λ t. record t { backend = some b }); pure (mode, b)

abbrev pub choose : World → DebugParams → Option Backend → String → Tool (String × Backend)
choose w p old mode = lift (select_backend w.gdb_found old p) >>= keep_choice mode

abbrev pub check_mode : World → DebugParams → Option Backend → String → Tool (String × Backend)
check_mode w p old mode =
    required (check_required (connects old) mode p) >>= λ _. choose w p old mode

abbrev pub check_from : World → DebugParams → Option Backend → Tool (String × Backend)
check_from w p old = lift (debug_mode (connects old) p) >>= check_mode w p old

-- The checks, up to the choice of the backend: the mode of the session and its backend.
unfoldable pub check_params : World → DebugParams → Tool (String × Backend)
check_params w p s = check_from w p s.backend s

-- `newDAPClient` and its error
abbrev pub dial : Option Client → String → Tool (Unit {0})
dial (some c) addr = modify (with_client c)
dial none addr = throw (naming "connecting to DAP server" addr)

abbrev pub connect_client : World → Backend → Transport → String → Tool (Unit {0})
connect_client w b tcp addr = dial (new_dap_client w.dialled addr (redials b) w.sub_counter) addr
connect_client w b stdio addr = modify (with_client (new_dap_client_from_rwc w.pipes w.sub_counter))

-- `ds.client.SetReinitHook(ds.reinitialize)` and `ds.client.Start()`
abbrev pub hook_and_start : Option Client → Session → Session
hook_and_start none s = s
hook_and_start (some c) s = with_client (start_read_loop (set_reinit_hook c)) s

abbrev pub connect_spawned : World → Backend → Spawned → Tool (Unit {0})
connect_spawned w b (spawn_failed e) = throw (backend_refused e)
connect_spawned w b (spawned cmd addr) = do
  modify (λ s. record s { cmd = cmd })
  connect_client w b (transport_mode b) addr
  modify (λ s. hook_and_start s.client s)

-- From `Spawn` to `Start`.
unfoldable pub spawn_and_connect : World → Backend → DebugParams → Tool (Unit {0})
unfolding debug_port spawn
spawn_and_connect w b p = connect_spawned w b (spawn w.host b (debug_port p.port)).0

-- `InitializeRequest` with its response
unfoldable pub initialize : Env → String → Tool Capabilities
initialize env id = do r ← call env (initialize_request id); capabilities_of r

abbrev pub store_params : String → DebugParams → Session → Session
store_params mode p s = record s {
  launch_mode = mode;
  program_path = p.path;
  program_args = p.args;
  core_file_path = p.core_file_path;
}

abbrev pub launch_at : World → DebugParams → ℕ → Command → Tool ℕ
launch_at w p since cmd = do launch_and_configure w.env cmd p.breakpoints; pure since

-- The request that the mode asks for, with the instant before it.
abbrev pub request_start : World → Backend → String → DebugParams → Tool ℕ
request_start w b mode p = do
  s ← get
  cmd ← lift (start_command w.cwd b mode p (stops_on_entry p.stop_on_entry p.breakpoints))
  launch_at w p (time_now w.env s) cmd

abbrev pub after_greeting : World → Backend → String → DebugParams → Capabilities → Tool ℕ
after_greeting w b mode p caps = do
  put_capabilities caps
  modify (store_params mode p)
  request_start w b mode p

-- From the greeting to the registered tools: the instant at which the start was requested.
unfoldable pub start_session : World → Backend → String → DebugParams → Tool ℕ
unfolding initialize
start_session w b mode p = initialize w.env (adapter_id b) >>= after_greeting w b mode p

-- `ds.client.X(...)` whose response is not awaited.
abbrev pub sent_result : Sent → Result (Unit {0})
sent_result ((n, none), c) = ok tt
sent_result ((n, some e), c) = err (sending e)

abbrev pub send_from : Env → (Option String → Client → Sent) → Option Client → Tool (Unit {0})
send_from env method none s = (err not_started, s)
send_from env method (some c) s =
    let r = method (env.written c.seq) c in (sent_result r, with_client r.1 s)

unfoldable pub send_only : Env → (Option String → Client → Sent) → Tool (Unit {0})
send_only env method s = send_from env method s.client s

abbrev pub note_stop : Env → ℤ → Tool ℤ
note_stop env thread = do s ← get; modify (stopped_at thread (time_now env s)); pure thread

abbrev pub note_end : Env → Tool ℤ
note_end env = do s ← get; modify (λ t. record t { last_stop_at = time_now env s }); pure (pos 0)

-- The loop that waits for the first breakpoint: a stop on entry is continued, and the response to that
-- is left to the registry. When the program ends, the thread is 0. Nothing more comes behind the last
-- arrival, until the caller gives up.
unfoldable pub wait_loop : Env → List Arrival → Tool ℤ
wait_loop env [] = throw (ctx canceled)
wait_loop env (stop_event reason thread ∷ rest) =
    let go_on = (send_only env (continue_request thread) >> wait_loop env rest) in
    if str_eq reason "entry" then go_on else note_stop env thread
wait_loop env (terminated_event ∷ rest) = note_end env
wait_loop env (lost_event m ∷ rest) = throw (wrapped "debug startup" (connection_lost m))
wait_loop env (channel_closed ∷ rest) = throw connection_stale
wait_loop env (context_done e ∷ rest) = throw (ctx e)

abbrev pub or_one : ℤ → ℤ
or_one thread = if eqb_ℤ thread (pos 0) then pos 1 else thread

abbrev pub context_of : Env → ℤ → Tool Started
context_of env thread = do c ← get_full_context env thread (pos 0) (pos 20); pure (at c)

abbrev pub core_thread : Option ℤ → Session → Session
core_thread none s = record s { stopped_thread_id = or_one s.stopped_thread_id }
core_thread (some thread) s = record s { stopped_thread_id = or_one thread }

-- A core dump has stopped already.
unfoldable pub core_context : Env → ℕ → Tool Started
core_context env since = do
  s ← get
  stop ← lift (waited_result (await_stop env since s))
  modify (core_thread stop)
  modify (λ t. record t { last_stop_at = time_now env s })
  t ← get
  context_of env t.stopped_thread_id

unfoldable pub first_breakpoint : Env → List Arrival → Tool Started
unfolding wait_loop
first_breakpoint env arrivals = do thread ← wait_loop env arrivals; context_of env (or_one thread)

-- What is returned, by the mode.
unfoldable pub first_context : World → String → DebugParams → ℕ → Tool Started
unfolding core_context first_breakpoint
first_context w mode p since =
    if str_eq mode "core"
    then core_context w.env since
    else if str_eq mode "attach"
    then pure (attach_ready (ltb 0 (length p.breakpoints)))
    else if ltb 0 (length p.breakpoints) && not p.stop_on_entry
    then first_breakpoint w.env w.arrivals
    else pure (begun p.path)

abbrev pub run_session : World → DebugParams → String × Backend → Tool Started
run_session w p (mode, b) = do
  spawn_and_connect w b p
  since ← start_session w b mode p
  first_context w mode p since

-- `debug`
unfoldable pub debug : World → DebugParams → Tool Started
unfolding cleanup check_params
debug w p = do modify cleanup; choice ← check_params w p; run_session w p choice
