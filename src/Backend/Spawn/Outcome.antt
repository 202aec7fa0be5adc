-- ===== src/Backend/Spawn/Outcome.antt =====
-- What `Spawn` leaves behind when it fails, and when it succeeds.
use mcp_dap_server_k8s_forwa.Prelude.{
  ◌≡◌, ap, ◌∙◌, String, List, [], ◌∷◌, ◌++◌, Option, none, some, true, false, if_true, if_false,
  All, str_eq, if_keeps,
}
use mcp_dap_server_k8s_forwa.Text.{has_prefix}
use mcp_dap_server_k8s_forwa.Backend.{Backend, delve, gdb, connect, BackendError}
use mcp_dap_server_k8s_forwa.Backend.Spawn.{
  Host, Process, not_started, running, reaped, Spawned, spawned, spawn_failed, announcement,
  listen_address, read_listen_address, delve_command, after_output, delve_started, spawn_delve,
  spawn_gdb, spawn_connect, spawn,
}

-- No process runs.
abbrev pub Gone : Process → Type 0
Gone not_started = Unit
Gone (running pid command) = ⊥
Gone (reaped pid) = Unit

abbrev FailsClean : Spawned × Process → Type 0
FailsClean (spawned cmd addr, p) = Unit
FailsClean (spawn_failed e, p) = Gone p

after_output-FailsClean :
    (h : Host) (port : String) (o : Option String) → FailsClean (after_output h port o)
unfolding after_output
after_output-FailsClean h port none = tt
after_output-FailsClean h port (some addr) = if_keeps FailsClean (str_eq addr "") _ _ tt tt

delve_started-FailsClean :
    (h : Host) (port : String) (o : Option String) → FailsClean (delve_started h port o)
unfolding delve_started
delve_started-FailsClean h port (some e) = tt
delve_started-FailsClean h port none = after_output-FailsClean h port (read_listen_address h.output)

spawn_delve-FailsClean :
    (h : Host) (port : String) (o : Option String) → FailsClean (spawn_delve h port o)
unfolding spawn_delve
spawn_delve-FailsClean h port (some e) = tt
spawn_delve-FailsClean h port none = delve_started-FailsClean h port h.start

spawn_gdb-FailsClean :
    (h : Host) (path : String) (a b c : Option String) → FailsClean (spawn_gdb h path a b c)
unfolding spawn_gdb
spawn_gdb-FailsClean h path (some e) b c = tt
spawn_gdb-FailsClean h path none (some e) c = tt
spawn_gdb-FailsClean h path none none (some e) = tt
spawn_gdb-FailsClean h path none none none = tt

spawn-FailsClean : (h : Host) (b : Backend) (port : String) → FailsClean (spawn h b port)
unfolding spawn spawn_connect
spawn-FailsClean h delve port = spawn_delve-FailsClean h port h.stdout_pipe
spawn-FailsClean h (gdb path) port = spawn_gdb-FailsClean h path h.stdin_pipe h.stdout_pipe h.start
spawn-FailsClean h (connect addr timeout) port = if_keeps FailsClean (str_eq addr "") _ _ tt tt

FailsClean-Gone :
    (x : Spawned × Process) (e : BackendError) → x.0 ≡ spawn_failed e → FailsClean x → Gone x.1
FailsClean-Gone (spawned cmd addr, p) e h g = absurd (cc h)
FailsClean-Gone (spawn_failed e', p) e h g = g

-- Whichever backend is spawned, and wherever it fails, no process is left running: either none was
-- started, or it has been killed and waited for.
pub spawn-fails :
    (h : Host) (b : Backend) (port : String) (e : BackendError)
    → (spawn h b port).0 ≡ spawn_failed e
    → Gone (spawn h b port).1
spawn-fails h b port e k = FailsClean-Gone (spawn h b port) e k (spawn-FailsClean h b port)

read_listen_address-first :
    (before : List String) (line : String) (after : List String)
    → All (λ l. has_prefix l announcement ≡ false) before
    → has_prefix line announcement ≡ true
    → read_listen_address (before ++ line ∷ after) ≡ some (listen_address line)
unfolding read_listen_address
read_listen_address-first [] line after h k = if_true _ _ k
read_listen_address-first (l ∷ before) line after (e, h) k =
    if_false _ _ e ∙ read_listen_address-first before line after h k

-- If the pipe and the start succeed, Delve is spawned as soon as it prints a line with its announcement,
-- whatever it prints before and behind: the address is that of the first such line, when it is not empty,
-- and the process runs.
pub spawn-announced :
    (h : Host) (port : String) (before : List String) (line : String) (after : List String)
    → h.stdout_pipe ≡ none
    → h.start ≡ none
    → h.output ≡ before ++ line ∷ after
    → All (λ l. has_prefix l announcement ≡ false) before
    → has_prefix line announcement ≡ true
    → str_eq (listen_address line) "" ≡ false
    → spawn h delve port
      ≡ (spawned (some h.pid) (listen_address line), running h.pid (delve_command port))
unfolding spawn spawn_delve delve_started after_output
spawn-announced h port before line after p s o a b c =
    ap (spawn_delve h port) p
    ∙ ap (delve_started h port) s
    ∙ ap (after_output h port)
        (ap read_listen_address o ∙ read_listen_address-first before line after a b)
    ∙ if_false _ _ c
