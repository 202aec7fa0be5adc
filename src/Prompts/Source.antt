-- ===== src/Prompts/Source.antt =====
-- prompts.go: `promptDebugSource`.
use mcp_dap_server_k8s_forwa.Prelude.{
  List, [], ◌∷◌, String, Bool, true, false, if◌then◌else◌, str_eq,
}
use mcp_dap_server_k8s_forwa.Prompts.{
  Document, text_of, Arguments, PromptResult, described, is_c_family, language_or_go, debugger_for,
  mode_for,
}

-- The note on compiling, for C and C++.
unfoldable pub compile_note : String → Document
compile_note path =
    []
    ∷ ("> **Note:** GDB does not support 'source' mode. Compile first with debug symbols:" ∷ [])
    ∷ ("> - C: `gcc -g -O0 -o myprogram " ∷ path ∷ "`" ∷ [])
    ∷ ("> - C++: `g++ -g -O0 -o myprogram " ∷ path ∷ "`" ∷ [])
    ∷ ("> Then use 'binary' mode with the compiled output path." ∷ [])
    ∷ []

unfoldable pub breakpoint_section : String → String → String → String → Document
breakpoint_section breakpoints mode path debugger =
    []
    ∷ ("### Optional: Pre-set breakpoints" ∷ [])
    ∷ ("The following breakpoints were requested: `" ∷ breakpoints ∷ "`" ∷ [])
    ∷ []
    ∷ ("Include them in the debug call:" ∷ [])
    ∷ ("```json" ∷ [])
    ∷ ("{" ∷ [])
    ∷ ("  \"mode\": \"" ∷ mode ∷ "\"," ∷ [])
    ∷ ("  \"path\": \"" ∷ path ∷ "\"," ∷ [])
    ∷ ("  \"debugger\": \"" ∷ debugger ∷ "\"," ∷ [])
    ∷ ("  \"breakpoints\": [" ∷ [])
    ∷ ("    {\"file\": \"/abs/path/to/file.go\", \"line\": 42}" ∷ [])
    ∷ ("  ]" ∷ [])
    ∷ ("}" ∷ [])
    ∷ ("```" ∷ [])
    ∷ []

-- The call that the prompt shows.
abbrev pub source_call : String → String → String → List String
source_call mode path debugger =
    "Call: `debug(mode=\"" ∷ mode ∷ "\", path=\"" ∷ path ∷ "\", debugger=\"" ∷ debugger ∷ "\")`"
    ∷ []

unfoldable pub tool_name : String → String
tool_name debugger = if str_eq debugger "delve" then "dlv" else "gdb (native DAP)"

unfoldable pub source_document :
    String → String → String → String → String → String → String → Document
source_document language note path mode debugger section tool =
    ("## Live Source Debug Session" ∷ [])
    ∷ []
    ∷ ("You are debugging a **" ∷ language ∷ "** program from source." ∷ note ∷ [])
    ∷ []
    ∷ ("**Program path:** `" ∷ path ∷ "`" ∷ [])
    ∷ []
    ∷ ("---" ∷ [])
    ∷ []
    ∷ ("### Step 1: Start the debug session" ∷ [])
    ∷ []
    ∷ (source_call mode path debugger)
    ∷ (section ∷ [])
    ∷ ("Expected output: The debugger starts and either stops at entry or waits at a breakpoint. You will see a stack trace and local variables."
        ∷ [])
    ∷ []
    ∷ ("**If the debug tool fails:**" ∷ [])
    ∷ ("- Check that `" ∷ tool ∷ "` is installed and in `$PATH`" ∷ [])
    ∷ ("- For Go: ensure the path points to a .go file or directory with a `main` package" ∷ [])
    ∷ ("- For C/C++: compile with -g -O0 first, then use binary mode" ∷ [])
    ∷ []
    ∷ ("---" ∷ [])
    ∷ []
    ∷ ("### Step 2: Set strategic breakpoints" ∷ [])
    ∷ []
    ∷ ("Before running, identify the most useful locations:" ∷ [])
    ∷ ("- Entry points to the function or logic area of interest" ∷ [])
    ∷ ("- Error handling paths" ∷ [])
    ∷ ("- State transitions" ∷ [])
    ∷ []
    ∷ ("Call: `breakpoint(file=\"/abs/path/to/file\", line=N)`" ∷ [])
    ∷ ("Or by function: `breakpoint(function=\"packageName.FunctionName\")`" ∷ [])
    ∷ []
    ∷ ("---" ∷ [])
    ∷ []
    ∷ ("### Step 3: Run to the first interesting point — **two-step pattern**" ∷ [])
    ∷ []
    ∷ ("`continue` is non-blocking (v0.2.0+): it returns immediately with a \"running\" status JSON. To receive the stop event, call `wait-for-stop` next."
        ∷ [])
    ∷ []
    ∷ ("Call: `continue()`" ∷ [])
    ∷ ("Then call: `wait-for-stop(timeoutSec=30, pauseIfTimeout=true)`" ∷ [])
    ∷ []
    ∷ ("Expected: `wait-for-stop` returns full context when the program hits" ∷ [])
    ∷ ("the breakpoint. With `pauseIfTimeout=true`, a pause is issued on timeout" ∷ [])
    ∷ ("and the current stopped context is returned so you can inspect where the" ∷ [])
    ∷ ("program got stuck." ∷ [])
    ∷ []
    ∷ ("Output includes:" ∷ [])
    ∷ ("- **Location**: file, line, function name" ∷ [])
    ∷ ("- **Stack trace**: full call chain" ∷ [])
    ∷ ("- **Variables**: locals and their current values" ∷ [])
    ∷ []
    ∷ ("**When to use a subagent:** if the breakpoint needs an external trigger" ∷ [])
    ∷ ("(HTTP request, browser navigation) that may take > 60s, dispatch" ∷ [])
    ∷ ("`wait-for-stop` to a subagent via the Agent tool so your main agent can" ∷ [])
    ∷ ("issue the trigger in parallel." ∷ [])
    ∷ []
    ∷ ("**What to look for:**" ∷ [])
    ∷ ("- Are variable values what you expect at this point?" ∷ [])
    ∷ ("- Is the call stack reasonable, or is something unexpected calling this function?" ∷ [])
    ∷ []
    ∷ ("---" ∷ [])
    ∷ []
    ∷ ("### Step 4: Inspect state" ∷ [])
    ∷ []
    ∷ ("Call: `context()` at any time to refresh the current location, stack, and variables." ∷ [])
    ∷ []
    ∷ ("Call: `evaluate(expression=\"variableName\")` to inspect specific values:" ∷ [])
    ∷ ("- Struct fields: `evaluate(expression=\"user.Address.City\")`" ∷ [])
    ∷ ("- Slice/array elements: `evaluate(expression=\"items[0]\")`" ∷ [])
    ∷ ("- Computed expressions: `evaluate(expression=\"len(queue)\")`" ∷ [])
    ∷ []
    ∷ ("---" ∷ [])
    ∷ []
    ∷ ("### Step 5: Step through logic" ∷ [])
    ∷ []
    ∷ ("- `step(mode=\"over\")` — execute current line, staying in the same function" ∷ [])
    ∷ ("- `step(mode=\"in\")` — step into a function call" ∷ [])
    ∷ ("- `step(mode=\"out\")` — run until the current function returns" ∷ [])
    ∷ []
    ∷ ("**Decision guide:**" ∷ [])
    ∷ ("- See an unexpected value? Step _in_ to the function that produced it" ∷ [])
    ∷ ("- At a line that doesn't matter? Step _over_ it" ∷ [])
    ∷ ("- Deep in a call you don't care about? Step _out_" ∷ [])
    ∷ []
    ∷ ("---" ∷ [])
    ∷ []
    ∷ ("### Step 6: Check threads (if concurrent program)" ∷ [])
    ∷ []
    ∷ ("Call: `info(kind=\"threads\")`" ∷ [])
    ∷ []
    ∷ ("Look for: goroutines/threads in unexpected states, goroutines blocked on channels or mutexes."
        ∷ [])
    ∷ []
    ∷ ("---" ∷ [])
    ∷ []
    ∷ ("### Step 7: Identify the root cause" ∷ [])
    ∷ []
    ∷ ("By now you should be able to answer:" ∷ [])
    ∷ ("1. What is the actual (incorrect) value, and where did it come from?" ∷ [])
    ∷ ("2. What condition or code path led to this state?" ∷ [])
    ∷ ("3. Is this a logic error, a missing nil check, an off-by-one, a race condition, or something else?"
        ∷ [])
    ∷ []
    ∷ ("State your findings clearly: **\"The bug is at [file:line]. [Variable] has value [X] when it should be [Y] because [reason].\"**"
        ∷ [])
    ∷ []
    ∷ ("---" ∷ [])
    ∷ []
    ∷ ("### Step 8: Clean up" ∷ [])
    ∷ []
    ∷ ("Call: `stop()`" ∷ [])
    ∷ []
    ∷ []

abbrev pub optional : Bool → Document → String
optional true d = text_of d
optional false d = ""

unfoldable pub source_for : String → String → String → Bool → Document
unfolding compile_note breakpoint_section tool_name source_document text_of debugger_for mode_for
source_for path language breakpoints c_family =
    let mode = mode_for c_family in
    let debugger = debugger_for c_family in
    source_document language (optional c_family (compile_note path)) path mode debugger
      (if str_eq breakpoints ""
        then ""
        else text_of (breakpoint_section breakpoints mode path debugger))
      (tool_name debugger)

-- `promptDebugSource`
unfoldable pub prompt_debug_source : Arguments → PromptResult
unfolding source_for is_c_family language_or_go
prompt_debug_source arguments =
    let path = arguments "path" in
    let language = language_or_go (arguments "language") in
    record {
      description = described "Live source debugging workflow for " path;
      content = text_of (source_for path language (arguments "breakpoints") (is_c_family language));
    }
