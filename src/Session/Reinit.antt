-- ===== src/Session/Reinit.antt =====
-- tools.go: `reinitialize`, the hook of the reconnect loop. It greets a new adapter, attaches, and
-- sends the stored breakpoints again. Every request goes past the stale check.
pub mod Applies
pub mod Handshake
pub mod Adapter
pub mod Liveness
use mcp_dap_server_k8s_forwa.Prelude.{
  ℕ, ◌+◌, ℤ, pos, negsuc, String, Bool, List, [], ◌∷◌, Option, none, some, if◌then◌else◌, length,
}
use mcp_dap_server_k8s_forwa.Backend.{Backend, adapter_id, attach_args, Built, built, refused}
use mcp_dap_server_k8s_forwa.Dap.Message.{Capabilities, Body, initialize_body, Response, Fields}
use mcp_dap_server_k8s_forwa.Dap.Client.{Client}
use mcp_dap_server_k8s_forwa.Dap.Methods.{
  initialize_request_raw, attach_request_raw, set_breakpoints_request_raw,
  set_function_breakpoints_request_raw, configuration_done_request_raw,
}
use mcp_dap_server_k8s_forwa.Session.{
  Session, Breakpoints, Env, Error, sending, said, failed, unexpected_type, wrapped, reapply_failed,
  backend_refused, Result, ok, err, Tool, pure, throw, ◌>>=◌, ◌>>◌, get, modify, wrapping, expect,
  call, check_success, validated, time_now, await_initialized_or_fail,
}

abbrev capabilities_body : Body → Option Capabilities
capabilities_body (initialize_body caps) = some caps
capabilities_body _ = none

abbrev pub capabilities_of : Response → Tool Capabilities
capabilities_of r =
    if r.success
    then expect (capabilities_body r.body)
    else throw (failed "initialize failed" r.message)

-- `InitializeRequestRaw`
unfoldable pub initialize_raw : Env → String → Tool Capabilities
initialize_raw env id = do r ← call env (initialize_request_raw id); capabilities_of r

-- The error of the sending and the error of the response are wrapped in texts of their own.
abbrev pub either_error : (Error → Error) → (Error → Error) → Error → Error
either_error sent received (sending e) = sent (sending e)
either_error sent received e = received e

abbrev pub wrap_either {ℓ} : {A : Type ℓ} → (Error → Error) → (Error → Error) → Result A → Result A
wrap_either sent received (ok a) = ok a
wrap_either sent received (err e) = err (either_error sent received e)

abbrev pub wrapping_either {ℓ} : {A : Type ℓ} → (Error → Error) → (Error → Error) → Tool A → Tool A
wrapping_either sent received t s = (wrap_either sent received (t s).0, (t s).1)

abbrev pub greet : Env → Backend → Tool Capabilities
greet env backend =
    wrapping "reinitialize: InitializeRequest failed" (initialize_raw env (adapter_id backend))

abbrev pub put_capabilities : Capabilities → Tool (Unit {0})
put_capabilities caps = modify (λ s. record s { capabilities = caps })

-- `ds.backend.AttachArgs(0)`
abbrev pub built_attach_args : Backend → Tool Fields
built_attach_args backend = elim (attach_args backend (pos 0)) [
  | built args ↦ pure args
  | refused e ↦ throw (wrapped "reinitialize: AttachArgs failed" (backend_refused e))
]

abbrev pub send_attach : Env → Fields → Tool Response
send_attach env args =
    wrapping_either (wrapped "reinitialize: AttachRequest send failed")
      (wrapped "reinitialize: attach response") (call env (attach_request_raw args))

abbrev pub await_initialized : Env → ℕ → Tool (Unit {0})
await_initialized env since =
    wrapping "reinitialize: waiting for InitializedEvent" (await_initialized_or_fail env since)

-- The instant is taken before the attach request is sent.
unfoldable pub attach_again : Env → Backend → Tool (Unit {0})
attach_again env backend = do
  args ← built_attach_args backend
  s ← get
  let since = time_now env s
  r ← send_attach env args
  check_success "reinitialize: attach failed" r
  await_initialized env since

abbrev pub reapply_file : Env → ℕ → ℕ → String → List ℤ → Tool (Unit {0})
reapply_file env applied total file lines =
    wrapping_either (λ e. reapply_failed file e applied total)
      (λ e. reapply_failed file e applied total)
      (validated env "reinitialize SetBreakpoints" (set_breakpoints_request_raw file lines))

-- The loop over the files, with its counter.
unfoldable pub reapply_files : Env → ℕ → ℕ → Breakpoints → Tool (Unit {0})
reapply_files env applied total [] = pure tt
reapply_files env applied total ((file, lines) ∷ m) = do
  reapply_file env applied total file lines
  reapply_files env (applied + 1) total m

unfoldable pub reapply_functions : Env → List String → Tool (Unit {0})
reapply_functions env [] = pure tt
reapply_functions env (f ∷ fs) =
    wrapping_either (wrapped "reinitialize: SetFunctionBreakpointsRequest")
      (wrapped "reinitialize: SetFunctionBreakpoints response")
      (validated env "reinitialize SetFunctionBreakpoints"
        (set_function_breakpoints_request_raw (f ∷ fs)))

abbrev pub finish_configuration : Env → Tool (Unit {0})
finish_configuration env =
    wrapping_either (wrapped "reinitialize: ConfigurationDoneRequest")
      (wrapped "reinitialize: ConfigurationDone response")
      (validated env "reinitialize ConfigurationDone" configuration_done_request_raw)

abbrev pub forget_position : Session → Session
forget_position s = record s {
  stopped_thread_id = pos 0;
  last_frame_id = negsuc 0;
  last_stop_at = 0;
}

-- From the loop over the files on.
unfoldable pub reapply : Env → Breakpoints → List String → Tool (Unit {0})
reapply env breakpoints functions = do
  reapply_files env 0 (length breakpoints) breakpoints
  reapply_functions env functions
  finish_configuration env

-- The whole exchange with the new adapter.
unfoldable pub handshake : Env → Backend → Tool (Unit {0})
handshake env backend = do
  caps ← greet env backend
  put_capabilities caps
  attach_again env backend
  t ← get
  reapply env t.breakpoints t.function_breakpoints

unfoldable pub reinitialize_with : Env → Option Client → Option Backend → Tool (Unit {0})
reinitialize_with env none backend = throw (said "reinitialize: no DAP client")
reinitialize_with env (some c) none = throw (said "reinitialize: no backend")
reinitialize_with env (some c) (some backend) = do handshake env backend; modify forget_position

-- `reinitialize`
unfoldable pub reinitialize : Env → Tool (Unit {0})
reinitialize env s = reinitialize_with env s.client s.backend s
