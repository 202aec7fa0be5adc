-- ===== src/Backend.antt =====
-- backend.go, connect_backend.go: the debugger backends and the arguments that they build. What the
-- spawned process prints and what the dial does are arguments.
pub mod Spawn
use mcp_dap_server_k8s_forwa.Prelude.{
  ℕ, ℤ, String, Bool, true, false, List, [], ◌∷◌, if◌then◌else◌, str_eq, ◌==◌,
}
use mcp_dap_server_k8s_forwa.Dap.Message.{text, flag, number, texts, Fields, end, field}

-- The three implementations of `DebuggerBackend`. A `ConnectBackend` has an address and a dial
-- timeout, in seconds.
pub data Backend : Type 0 where
  delve : Backend
  gdb : String → Backend
  connect : String → ℕ → Backend

pub data Transport : Type 0 where
  tcp stdio : Transport

-- `TransportMode`
unfoldable pub transport_mode : Backend → Transport
transport_mode delve = tcp
transport_mode (gdb path) = stdio
transport_mode (connect addr timeout) = tcp

-- `AdapterID`
unfoldable pub adapter_id : Backend → String
adapter_id delve = "go"
adapter_id (gdb path) = "gdb"
adapter_id (connect addr timeout) = "go"

-- `ds.backend.(Redialer)`: only `ConnectBackend` has the method `Redial`.
unfoldable pub redials : Backend → Bool
redials delve = false
redials (gdb path) = false
redials (connect addr timeout) = true

-- The errors that a backend makes itself, and the environment's.
pub data BackendError : Type 0 where
  unsupported_launch_mode : String → BackendError
  no_source_mode launch_not_supported core_not_supported : BackendError
  no_address no_listen_address : BackendError
  failure : String → BackendError
  failure_of : String → String → BackendError

pub data Built : Type 0 where
  built : Fields → Built
  refused : BackendError → Built

-- `if len(programArgs) > 0 { args["args"] = programArgs }`
abbrev program_args_field : List String → Fields
program_args_field [] = end
program_args_field (a ∷ rest) = field "args" (texts (a ∷ rest)) end

abbrev delve_launch : String → String → Bool → List String → Fields
delve_launch dlv_mode program_path stop_on_entry program_args = field "request" (text "launch") (
    field "mode" (text dlv_mode) (
      field "program" (text program_path)
        (field "stopOnEntry" (flag stop_on_entry) (program_args_field program_args))))

-- `LaunchArgs` of `delveBackend`
unfoldable pub delve_launch_args : String → String → Bool → List String → Built
delve_launch_args mode program_path stop_on_entry program_args =
    if str_eq mode "source"
    then built (delve_launch "debug" program_path stop_on_entry program_args)
    else (if str_eq mode "binary"
        then built (delve_launch "exec" program_path stop_on_entry program_args)
        else refused (unsupported_launch_mode mode))

-- `LaunchArgs` of `gdbBackend`; `cwd` is what `os.Getwd` returns.
unfoldable pub gdb_launch_args : String → String → String → Bool → List String → Built
gdb_launch_args cwd mode program_path stop_on_entry program_args =
    if str_eq mode "source"
    then refused no_source_mode
    else built (
        field "program" (text program_path) (
          field "cwd" (text cwd) (
            field "stopAtBeginningOfMainSubprogram" (flag stop_on_entry)
              (program_args_field program_args))))

-- `LaunchArgs`
unfoldable pub launch_args : String → Backend → String → String → Bool → List String → Built
unfolding delve_launch_args gdb_launch_args
launch_args cwd delve mode program_path stop_on_entry program_args =
    delve_launch_args mode program_path stop_on_entry program_args
launch_args cwd (gdb path) mode program_path stop_on_entry program_args =
    gdb_launch_args cwd mode program_path stop_on_entry program_args
launch_args cwd (connect addr timeout) mode program_path stop_on_entry program_args =
    refused launch_not_supported

-- `CoreArgs` of `delveBackend` and of `gdbBackend`
unfoldable pub delve_core_args : String → String → Built
delve_core_args program_path core_file_path = built (
    field "request" (text "launch") (
      field "mode" (text "core")
        (field "program" (text program_path) (field "coreFilePath" (text core_file_path) end))))

unfoldable pub gdb_core_args : String → String → Built
gdb_core_args program_path core_file_path =
    built (field "program" (text program_path) (field "coreFile" (text core_file_path) end))

-- `CoreArgs`
unfoldable pub core_args : Backend → String → String → Built
unfolding delve_core_args gdb_core_args
core_args delve program_path core_file_path = delve_core_args program_path core_file_path
core_args (gdb path) program_path core_file_path = gdb_core_args program_path core_file_path
core_args (connect addr timeout) program_path core_file_path = refused core_not_supported

-- `AttachArgs` of the three backends
unfoldable pub delve_attach_args : ℤ → Built
delve_attach_args process_id = built (
    field "request" (text "attach")
      (field "mode" (text "local") (field "processId" (number process_id) end)))

unfoldable pub gdb_attach_args : ℤ → Built
gdb_attach_args process_id = built (field "pid" (number process_id) end)

unfoldable pub connect_attach_args : ℤ → Built
connect_attach_args process_id =
    built (field "request" (text "attach") (field "mode" (text "remote") end))

-- `AttachArgs`
unfoldable pub attach_args : Backend → ℤ → Built
unfolding delve_attach_args gdb_attach_args connect_attach_args
attach_args delve process_id = delve_attach_args process_id
attach_args (gdb path) process_id = gdb_attach_args process_id
attach_args (connect addr timeout) process_id = connect_attach_args process_id

-- The timeout of the dial in `Redial`, in seconds.
unfoldable pub dial_timeout : ℕ → ℕ
dial_timeout timeout = if timeout == 0 then 5 else timeout

-- What the dial of an address gives, a socket or the text of its error.
pub data Dialled : Type 0 where
  socket : ℕ → Dialled
  dial_failed : String → Dialled

-- `Redial`
pub data Redialled : Type 0 where
  redialled : ℕ → Redialled
  redial_failed : BackendError → Redialled

abbrev pub redial_result : Dialled → Redialled
redial_result (socket n) = redialled n
redial_result (dial_failed e) = redial_failed (failure_of "ConnectBackend.Redial" e)

-- The dial with its timeout is the environment's. Keeping the connection alive has no effect here.
unfoldable pub redial : (String → ℕ → Dialled) → String → ℕ → Redialled
unfolding dial_timeout
redial dial addr timeout = redial_result (dial addr (dial_timeout timeout))
