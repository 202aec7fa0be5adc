-- ===== src/Session/Query.antt =====
-- tools.go: the tools that ask: `evaluate`, `set-variable`, `restart`, `info`, `disassemble`,
-- `context`.
pub mod Frame
use mcp_dap_server_k8s_forwa.Prelude.{
  ℕ, ℤ, pos, negsuc, String, List, [], ◌∷◌, Option, none, some, Bool, true, false, ◌&&◌, ◌||◌, not,
  if◌then◌else◌, str_eq, eqb_ℤ, ltb_ℤ,
}
use mcp_dap_server_k8s_forwa.Dap.Message.{
  Body, Thread, Module, Instruction, evaluate_body, threads_body, loaded_sources_body, modules_body,
  disassemble_body, Value, text, flag, texts, object, Fields, end, field,
}
use mcp_dap_server_k8s_forwa.Dap.Methods.{
  evaluate_request, set_variable_request, restart_request, threads_request, loaded_sources_request,
  modules_request, disassemble_request,
}
use mcp_dap_server_k8s_forwa.Session.{
  Session, Env, Error, said, naming, wrapped, Result, ok, err, Tool, pure, throw, ◌>>=◌, ◌>>◌, get,
  guard_started, wrapping, validated, typed_call, thread_or_default,
}
use mcp_dap_server_k8s_forwa.Session.Control.Snapshot.{Context, attempt, get_full_context}

-- The context of the evaluation and the frame: a frame that is given, else the one of the last
-- context that was fetched, else 0.
unfoldable pub eval_context : String → String
eval_context c = if str_eq c "" then "watch" else c

unfoldable pub eval_frame : Option ℤ → Session → ℤ
eval_frame (some f) s = f
eval_frame none s = if ltb_ℤ s.last_frame_id (pos 0) then pos 0 else s.last_frame_id

abbrev pub evaluated : Body → Option (String × String)
evaluated (evaluate_body result type_name) = some (result, type_name)
evaluated _ = none

abbrev pub evaluate_started : Env → String → Option ℤ → String → Tool (String × String)
evaluate_started env expression frame_id context = do
  s ← get
  wrapping "unable to evaluate expression" (
      typed_call env evaluated
        (evaluate_request expression (eval_frame frame_id s) (eval_context context)))

-- `evaluateExpression`: the result and its type, which is printed unless it is empty.
unfoldable pub evaluate_expression : Env → String → Option ℤ → String → Tool (String × String)
evaluate_expression env expression frame_id context = do
  guard_started
  evaluate_started env expression frame_id context

-- `setVariable`
unfoldable pub set_variable : Env → ℤ → String → String → Tool (Unit {0})
set_variable env variables_reference name value = do
  guard_started
  validated env "unable to set variable" (set_variable_request variables_reference name value)

-- The arguments that every restart has: the new program arguments, or none.
abbrev restart_arguments : List String → Fields
restart_arguments args =
    field "arguments"
      (object (
        field "request" (text "launch") (
          field "mode" (text "exec") (
            field "stopOnEntry" (flag false)
              (field "args" (texts args) (field "rebuild" (flag false) end))))))
      end

-- `restartDebugger`
unfoldable pub restart_debugger : Env → List String → Tool (Unit {0})
restart_debugger env args = do
  guard_started
  validated env "unable to restart debugger" (restart_request (some (restart_arguments args)))

pub data Info : Type 0 where
  threads : List Thread → Info
  sources : List String → Info
  modules : List Module → Info

abbrev pub thread_list : Body → Option (List Thread)
thread_list (threads_body ts) = some ts
thread_list _ = none

abbrev pub source_list : Body → Option (List String)
source_list (loaded_sources_body ss) = some ss
source_list _ = none

abbrev pub module_list : Body → Option (List Module)
module_list (modules_body ms) = some ms
module_list _ = none

-- The kind that is asked for, by default one that the adapter has.
unfoldable pub info_type : String → Session → String
info_type t s =
    if str_eq t ""
    then (if s.capabilities.supports_loaded_sources_request then "sources" else "threads")
    else t

abbrev list_threads : Env → Tool Info
list_threads env = do
  ts ← wrapping "failed to get threads" (typed_call env thread_list threads_request)
  pure (threads ts)

abbrev list_sources : Env → Tool Info
list_sources env = do
  ss ← wrapping "failed to get loaded sources" (typed_call env source_list loaded_sources_request)
  pure (sources ss)

abbrev list_modules : Env → Tool Info
list_modules env = do
  ms ← wrapping "failed to get modules" (typed_call env module_list modules_request)
  pure (modules ms)

unfoldable pub info_of : Env → String → Session → Tool Info
info_of env t s =
    if str_eq t "threads"
    then list_threads env
    else (if str_eq t "sources"
        then (if s.capabilities.supports_loaded_sources_request
            then list_sources env
            else throw (said "loaded sources not supported by this debug adapter"))
        else (if str_eq t "modules"
            then (if s.capabilities.supports_modules_request
                then list_modules env
                else throw (said "modules not supported by this debug adapter"))
            else throw (naming "invalid type" t)))

-- `info`
unfoldable pub info : Env → String → Tool Info
unfolding info_of info_type
info env t = do guard_started; s ← get; info_of env (info_type t s) s

abbrev pub instruction_list : Body → Option (List Instruction)
instruction_list (disassemble_body is) = some is
instruction_list _ = none

-- `disassembleCode`
unfoldable pub disassemble_code : Env → String → ℤ → ℤ → Tool (List Instruction)
disassemble_code env address offset count = do
  guard_started
  let n = if eqb_ℤ count (pos 0) then pos 20 else count
  wrapping "unable to disassemble"
      (typed_call env instruction_list (disassemble_request address offset n))

-- `getThreadList`: none for the empty string.
unfoldable pub get_thread_list : Env → Tool (Option (List Thread))
get_thread_list env = attempt (guard_started >> typed_call env thread_list threads_request)

-- An error, with the threads that the text lists if it is about a thread.
pub data ContextResult : Type 0 where
  context_of : Context → ContextResult
  context_failed : Error → Option (List Thread) → ContextResult

abbrev pub failed_context : (Error → Bool) → Env → Error → Tool ContextResult
failed_context mentions_thread env e =
    if mentions_thread e
    then (get_thread_list env >>= λ l. pure (context_failed e l))
    else pure (context_failed e none)

-- `context`: whether an error's text mentions a thread is a parameter, as the texts are not
-- modelled.
unfoldable pub context : (Error → Bool) → Env → ℤ → ℤ → ℤ → Tool ContextResult
unfolding get_thread_list
context mentions_thread env thread_id frame_id max_frames s =
    let n = if eqb_ℤ max_frames (pos 0) then pos 20 else max_frames in
    let (r, t) = get_full_context env (thread_or_default thread_id s) frame_id n s in
    elim r [ ok c ↦ (ok (context_of c), t) | err e ↦ failed_context mentions_thread env e t ]
