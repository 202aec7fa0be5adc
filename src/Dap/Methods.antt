-- ===== src/Dap/Methods.antt =====
-- dap.go: the `*Request` methods of `DAPClient`. Each takes a number, registers it and writes one
-- message; `written` is what the write of the socket does. The `*RequestRaw` methods do so past the
-- stale check.
use mcp_dap_server_k8s_forwa.Prelude.{ℕ, ℤ, String, Bool, List, [], ◌∷◌, Option}
use mcp_dap_server_k8s_forwa.Dap.Message.{
  DataBreakpoint, text, flag, number, texts, Fields, end, field,
}
use mcp_dap_server_k8s_forwa.Dap.Request
use mcp_dap_server_k8s_forwa.Dap.Request.{Command, Request}
use mcp_dap_server_k8s_forwa.Dap.Client.{
  Client, SendError, new_request, send_and_register, send_and_register_raw,
}

-- The results `(seq, err)` and the client.
abbrev pub Sent : Type 0
Sent = (ℕ × Option SendError) × Client

-- `return req.Seq, c.sendAndRegister(req.Seq, request)` after `newRequest`.
unfoldable pub request : Command → Option String → Client → Sent
request cmd written c =
    let (req, c1) = new_request cmd c in
    let (e, c2) = send_and_register written req.seq req c1 in ((req.seq, e), c2)

unfoldable pub request_raw : Command → Option String → Client → Sent
request_raw cmd written c =
    let (req, c1) = new_request cmd c in
    let (e, c2) = send_and_register_raw written req.seq req c1 in ((req.seq, e), c2)

-- `if len(args) > 0 { launchArgs["args"] = args }`
abbrev pub args_field : List String → Fields
args_field [] = end
args_field (a ∷ args) = field "args" (texts (a ∷ args)) end

unfoldable pub launch_request : String → String → Bool → List String → Option String → Client → Sent
launch_request mode program stop_on_entry args = request (
    Request.launch (
      field "request" (text "launch") (
        field "mode" (text mode) (
          field "program" (text program)
            (field "stopOnEntry" (flag stop_on_entry) (args_field args))))))

unfoldable pub core_request : String → String → Option String → Client → Sent
core_request program core_file_path = request (
    Request.launch (
      field "request" (text "launch") (
        field "mode" (text "core")
          (field "program" (text program) (field "coreFilePath" (text core_file_path) end)))))

unfoldable pub attach_request : String → ℤ → Option String → Client → Sent
attach_request mode process_id = request (
    Request.attach (
      field "request" (text "attach")
        (field "mode" (text mode) (field "processId" (number process_id) end))))

unfoldable pub attach_request_raw : Fields → Option String → Client → Sent
attach_request_raw args = request_raw (Request.attach args)

unfoldable pub set_breakpoints_request_raw : String → List ℤ → Option String → Client → Sent
set_breakpoints_request_raw file lines = request_raw (Request.set_breakpoints file lines)

unfoldable pub set_function_breakpoints_request_raw : List String → Option String → Client → Sent
set_function_breakpoints_request_raw functions =
    request_raw (Request.set_function_breakpoints functions)

unfoldable pub configuration_done_request_raw : Option String → Client → Sent
configuration_done_request_raw = request_raw Request.configuration_done

unfoldable pub set_breakpoints_request : String → List ℤ → Option String → Client → Sent
set_breakpoints_request file lines = request (Request.set_breakpoints file lines)

unfoldable pub set_function_breakpoints_request : List String → Option String → Client → Sent
set_function_breakpoints_request functions = request (Request.set_function_breakpoints functions)

unfoldable pub configuration_done_request : Option String → Client → Sent
configuration_done_request = request Request.configuration_done

unfoldable pub continue_request : ℤ → Option String → Client → Sent
continue_request thread_id = request (Request.continues thread_id)

unfoldable pub next_request : ℤ → Option String → Client → Sent
next_request thread_id = request (Request.next thread_id)

unfoldable pub step_in_request : ℤ → Option String → Client → Sent
step_in_request thread_id = request (Request.step_in thread_id)

unfoldable pub step_out_request : ℤ → Option String → Client → Sent
step_out_request thread_id = request (Request.step_out thread_id)

unfoldable pub pause_request : ℤ → Option String → Client → Sent
pause_request thread_id = request (Request.pause thread_id)

unfoldable pub threads_request : Option String → Client → Sent
threads_request = request Request.threads

unfoldable pub stack_trace_request : ℤ → ℤ → ℤ → Option String → Client → Sent
stack_trace_request thread_id start_frame levels =
    request (Request.stack_trace thread_id start_frame levels)

unfoldable pub scopes_request : ℤ → Option String → Client → Sent
scopes_request frame_id = request (Request.scopes frame_id)

unfoldable pub variables_request : ℤ → Option String → Client → Sent
variables_request reference = request (Request.variables reference)

-- The arguments are a map, so that a frame id of 0 is sent; an empty context is left out of it.
unfoldable pub evaluate_request : String → ℤ → String → Option String → Client → Sent
evaluate_request expression frame_id eval_context =
    request (Request.evaluate expression frame_id eval_context)

unfoldable pub disconnect_request : Bool → Option String → Client → Sent
disconnect_request terminate_debuggee = request (Request.disconnect terminate_debuggee)

unfoldable pub set_variable_request : ℤ → String → String → Option String → Client → Sent
set_variable_request variables_ref name value =
    request (Request.set_variable variables_ref name value)

-- `nil` arguments are left out of the request.
unfoldable pub restart_request : Option Fields → Option String → Client → Sent
restart_request arguments = request (Request.restart arguments)

unfoldable pub loaded_sources_request : Option String → Client → Sent
loaded_sources_request = request Request.loaded_sources

unfoldable pub modules_request : Option String → Client → Sent
modules_request = request Request.modules

unfoldable pub disassemble_request : String → ℤ → ℤ → Option String → Client → Sent
disassemble_request memory_reference instruction_offset instruction_count =
    request (Request.disassemble memory_reference instruction_offset instruction_count)

-- The sending halves of `InitializeRequest` and `InitializeRequestRaw`.
unfoldable pub initialize_request : String → Option String → Client → Sent
initialize_request adapter_id = request (Request.initialize adapter_id)

unfoldable pub initialize_request_raw : String → Option String → Client → Sent
initialize_request_raw adapter_id = request_raw (Request.initialize adapter_id)

unfoldable pub exception_info_request : ℤ → Option String → Client → Sent
exception_info_request thread_id = request (Request.exception_info thread_id)

unfoldable pub terminate_request : Option String → Client → Sent
terminate_request = request Request.terminate

unfoldable pub step_back_request : ℤ → Option String → Client → Sent
step_back_request thread_id = request (Request.step_back thread_id)

unfoldable pub breakpoint_locations_request : String → ℤ → Option String → Client → Sent
breakpoint_locations_request source line = request (Request.breakpoint_locations source line)

unfoldable pub completions_request : String → ℤ → ℤ → Option String → Client → Sent
completions_request written_text column frame_id =
    request (Request.completions written_text column frame_id)

unfoldable pub set_exception_breakpoints_request : List String → Option String → Client → Sent
set_exception_breakpoints_request filters = request (Request.set_exception_breakpoints filters)

unfoldable pub data_breakpoint_info_request : ℤ → String → Option String → Client → Sent
data_breakpoint_info_request variables_ref name =
    request (Request.data_breakpoint_info variables_ref name)

unfoldable pub set_data_breakpoints_request : List DataBreakpoint → Option String → Client → Sent
set_data_breakpoints_request breakpoints = request (Request.set_data_breakpoints breakpoints)

unfoldable pub source_request : ℤ → Option String → Client → Sent
source_request source_ref = request (Request.source source_ref)
