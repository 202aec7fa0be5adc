-- ===== src/Dap/Request.antt =====
-- The requests that dap.go builds: the command of each with the arguments that its method sets. The
-- arguments that `initialize` always sends are constant in the source.
use mcp_dap_server_k8s_forwa.Prelude.{ℕ, ℤ, String, Bool, List, Option}
use mcp_dap_server_k8s_forwa.Dap.Message.{Fields, DataBreakpoint}

pub data Command : Type 0 where
  initialize : String → Command
  launch : Fields → Command
  attach : Fields → Command
  set_breakpoints : String → List ℤ → Command
  set_function_breakpoints : List String → Command
  configuration_done : Command
  continues : ℤ → Command
  next : ℤ → Command
  step_in : ℤ → Command
  step_out : ℤ → Command
  pause : ℤ → Command
  threads : Command
  stack_trace : ℤ → ℤ → ℤ → Command
  scopes : ℤ → Command
  variables : ℤ → Command
  evaluate : String → ℤ → String → Command
  disconnect : Bool → Command
  exception_info : ℤ → Command
  set_variable : ℤ → String → String → Command
  restart : Option Fields → Command
  terminate : Command
  step_back : ℤ → Command
  loaded_sources : Command
  modules : Command
  breakpoint_locations : String → ℤ → Command
  completions : String → ℤ → ℤ → Command
  disassemble : String → ℤ → ℤ → Command
  set_exception_breakpoints : List String → Command
  data_breakpoint_info : ℤ → String → Command
  set_data_breakpoints : List DataBreakpoint → Command
  source : ℤ → Command

-- `dap.Request` with its arguments.
pub record Request : Type 0 where
  pub seq : ℕ
  pub command : Command
