-- ===== src/Backend/Spawn.antt =====
-- backend.go, connect_backend.go: `Spawn` of the three backends. What the operating system does with
-- the pipes and the process, and what the process prints, are arguments.
pub mod Outcome
use mcp_dap_server_k8s_forwa.Prelude.{
  ℕ, String, Bool, List, [], ◌∷◌, Option, none, some, if◌then◌else◌, str_eq, ◌≡◌, refl,
}
use mcp_dap_server_k8s_forwa.Text.{has_prefix, behind, trim_space}
use mcp_dap_server_k8s_forwa.Backend.{
  Backend, delve, gdb, connect, BackendError, no_address, no_listen_address, failure, failure_of,
}

-- The host while `Spawn` runs: the errors of the pipes and of the start, the number of the process, the
-- lines that it prints, and the error with which its output ends.
pub record Host : Type 0 where
  pub stdin_pipe : Option String
  pub stdout_pipe : Option String
  pub start : Option String
  pub pid : ℕ
  pub output : List String
  pub output_end : String

-- What has become of the process: killed and waited for, or running, with its command line.
pub data Process : Type 0 where
  not_started : Process
  running : ℕ → List String → Process
  reaped : ℕ → Process

-- What `Spawn` returns: a command, if it has started one, and an address, or an error.
pub data Spawned : Type 0 where
  spawned : Option ℕ → String → Spawned
  spawn_failed : BackendError → Spawned

abbrev pub announcement : String
announcement = "DAP server listening at"

abbrev pub trimmed : Option String → String
trimmed none = ""
trimmed (some s) = trim_space s

-- The address in a line: `strings.SplitN(s, ": ", 2)` and `strings.TrimSpace(parts[1])`.
unfoldable pub listen_address : String → String
unfolding behind trim_space
listen_address line = trimmed (behind ": " line)

-- The loop over the lines; `none` if the output ends before an announcement.
unfoldable pub read_listen_address : List String → Option String
unfolding has_prefix listen_address
read_listen_address [] = none
read_listen_address (line ∷ lines) =
    let rest = read_listen_address lines in
    if has_prefix line announcement then some (listen_address line) else rest

abbrev pub delve_command : String → List String
delve_command port = "dlv" ∷ "dap" ∷ "--listen" ∷ port ∷ "--log" ∷ "--log-output" ∷ "dap" ∷ []

unfoldable pub after_output : Host → String → Option String → Spawned × Process
after_output h port none = (spawn_failed (failure h.output_end), reaped h.pid)
after_output h port (some addr) =
    if str_eq addr ""
    then (spawn_failed no_listen_address, reaped h.pid)
    else (spawned (some h.pid) addr, running h.pid (delve_command port))

unfoldable pub delve_started : Host → String → Option String → Spawned × Process
unfolding after_output read_listen_address
delve_started h port (some e) = (spawn_failed (failure e), not_started)
delve_started h port none = after_output h port (read_listen_address h.output)

-- `Spawn` of `delveBackend`
unfoldable pub spawn_delve : Host → String → Option String → Spawned × Process
unfolding delve_started
spawn_delve h port (some e) = (spawn_failed (failure e), not_started)
spawn_delve h port none = delve_started h port h.start

abbrev pub gdb_command : String → List String
gdb_command path = (if str_eq path "" then "gdb" else path) ∷ "-i" ∷ "dap" ∷ []

-- `Spawn` of `gdbBackend`, with the errors of the two pipes and of the start.
unfoldable pub spawn_gdb :
    Host → String → Option String → Option String → Option String → Spawned × Process
spawn_gdb h path (some e) _ _ =
    (spawn_failed (failure_of "failed to create stdin pipe" e), not_started)
spawn_gdb h path none (some e) _ =
    (spawn_failed (failure_of "failed to create stdout pipe" e), not_started)
spawn_gdb h path none none (some e) =
    (spawn_failed (failure_of "failed to start gdb" e), not_started)
spawn_gdb h path none none none = (spawned (some h.pid) "", running h.pid (gdb_command path))

-- `Spawn` of `ConnectBackend`, which starts nothing.
unfoldable pub spawn_connect : String → Spawned × Process
spawn_connect addr =
    if str_eq addr ""
    then (spawn_failed no_address, not_started)
    else (spawned none addr, not_started)

-- `ds.backend.Spawn(port, ds.logWriter)`
unfoldable pub spawn : Host → Backend → String → Spawned × Process
unfolding spawn_delve spawn_gdb spawn_connect
spawn h delve port = spawn_delve h port h.stdout_pipe
spawn h (gdb path) port = spawn_gdb h path h.stdin_pipe h.stdout_pipe h.start
spawn h (connect addr timeout) port = spawn_connect addr

announced : listen_address "DAP server listening at: 127.0.0.1:38697\n" ≡ "127.0.0.1:38697"
unfolding listen_address
announced = refl
