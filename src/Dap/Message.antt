-- ===== src/Dap/Message.antt =====
-- The messages of the Debug Adapter Protocol, as far as dap.go and tools.go read or write them.
-- The package go-dap declares them; here stand the fields that the program uses.
use mcp_dap_server_k8s_forwa.Prelude.{ℕ, ℤ, String, Bool, false, List, Option}

-- A value of a `map[string]any` of launch, attach or restart arguments.
mutual
  pub data Value : Type 0 where
    text : String → Value
    flag : Bool → Value
    number : ℤ → Value
    texts : List String → Value
    object : Fields → Value

  pub data Fields : Type 0 where
    end : Fields
    field : String → Value → Fields → Fields

-- `dap.Capabilities`: the flags that tools.go tests.
pub record Capabilities : Type 0 where
  pub supports_restart_request : Bool
  pub supports_set_variable : Bool
  pub supports_disassemble_request : Bool
  pub supports_loaded_sources_request : Bool
  pub supports_modules_request : Bool

-- `dap.Capabilities{}`
abbrev pub no_capabilities : Capabilities
no_capabilities = record {
  supports_restart_request = false;
  supports_set_variable = false;
  supports_disassemble_request = false;
  supports_loaded_sources_request = false;
  supports_modules_request = false;
}

-- An answered breakpoint, `dap.Breakpoint`.
pub record Breakpoint : Type 0 where
  pub id : ℤ
  pub verified : Bool
  pub message : String
  pub line : ℤ

-- A breakpoint on data that is requested, `dap.DataBreakpoint`.
pub record DataBreakpoint : Type 0 where
  pub data_id : String
  pub access_type : String
  pub condition : String
  pub hit_condition : String

pub record Thread : Type 0 where
  pub id : ℤ
  pub name : String

-- `*dap.Source` may be nil: a frame has `none` then.
pub record StackFrame : Type 0 where
  pub id : ℤ
  pub name : String
  pub source_path : Option String
  pub line : ℤ
  pub presentation_hint : String

pub record Scope : Type 0 where
  pub name : String
  pub variables_reference : ℤ

pub record Variable : Type 0 where
  pub name : String
  pub type_name : String
  pub value : String

pub record Module : Type 0 where
  pub name : String
  pub path : String

pub record Instruction : Type 0 where
  pub address : String
  pub instruction : String
  pub location_path : Option String
  pub line : ℤ

-- Which Go type a response has, with the body that the program reads. `error_body` is
-- `*dap.ErrorResponse`; `plain` is any type whose body is not read.
pub data Body : Type 0 where
  initialize_body : Capabilities → Body
  set_breakpoints_body : List Breakpoint → Body
  evaluate_body : String → String → Body
  threads_body : List Thread → Body
  loaded_sources_body : List String → Body
  modules_body : List Module → Body
  disassemble_body : List Instruction → Body
  stack_trace_body : List StackFrame → Body
  scopes_body : List Scope → Body
  variables_body : List Variable → Body
  error_body : Body
  plain : Body

pub record Response : Type 0 where
  pub request_seq : ℕ
  pub success : Bool
  pub message : String
  pub body : Body

-- `connection_lost` is the program's own `ConnectionLostEvent`.
pub data Event : Type 0 where
  stopped : String → ℤ → Event
  terminated : Event
  initialized : Event
  connection_lost : String → Event
  other_event : String → Event

pub data Message : Type 0 where
  response : Response → Message
  event : Event → Message
  unknown : Message
