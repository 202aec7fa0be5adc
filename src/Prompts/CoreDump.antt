-- ===== src/Prompts/CoreDump.antt =====
-- prompts.go: `promptDebugCoreDump`.
use mcp_dap_server_k8s_forwa.Prelude.{List, [], ◌∷◌, String, Bool}
use mcp_dap_server_k8s_forwa.Prompts.{
  Document, text_of, Arguments, PromptResult, described, is_c_family, language_or_go, debugger_for,
}

unfoldable pub signal_guide : Document
signal_guide =
    []
    ∷ ("**Signal interpretation:**" ∷ [])
    ∷ ("- `SIGSEGV` (segfault) — nil pointer dereference, use-after-free, buffer overflow, stack overflow"
        ∷ [])
    ∷ ("- `SIGABRT` — explicit abort, assertion failure, double-free (C/C++), runtime panic (Go)"
        ∷ [])
    ∷ ("- `SIGFPE` — arithmetic error: division by zero, integer overflow" ∷ [])
    ∷ ("- `SIGBUS` — misaligned memory access, unmapped file region" ∷ [])
    ∷ ("- `SIGILL` — illegal CPU instruction (often compiler bug or corrupted binary)" ∷ [])
    ∷ ("- `SIGPIPE` — write to closed pipe/socket with no signal handler" ∷ [])
    ∷ []

-- The call that the prompt shows.
abbrev pub core_call : String → String → String → List String
core_call binary_path core_path debugger =
    "Call: `debug(mode=\"core\", path=\"" ∷ binary_path ∷ "\", coreFilePath=\"" ∷ core_path
    ∷ "\", debugger=\"" ∷ debugger ∷ "\")`" ∷ []

unfoldable pub core_document : String → String → String → String → Document
core_document binary_path core_path debugger signal_guide =
    ("## Post-Mortem Core Dump Analysis" ∷ [])
    ∷ []
    ∷ ("You are analyzing a **crash captured in a core dump**. Execution is frozen at the moment of the crash — you cannot step forward, but you have full access to the crashed state."
        ∷ [])
    ∷ []
    ∷ ("**Program:** `" ∷ binary_path ∷ "`" ∷ [])
    ∷ ("**Core dump:** `" ∷ core_path ∷ "`" ∷ [])
    ∷ ("**Debugger:** " ∷ debugger ∷ [])
    ∷ []
    ∷ ("> This is read-only analysis. You cannot change execution — only observe the crashed state."
        ∷ [])
    ∷ []
    ∷ ("---" ∷ [])
    ∷ []
    ∷ ("### Step 1: Start the core dump session" ∷ [])
    ∷ []
    ∷ (core_call binary_path core_path debugger)
    ∷ []
    ∷ ("Expected: The debugger loads the core dump and positions at the crash frame. You will see the crash location, stack trace, and local variables."
        ∷ [])
    ∷ []
    ∷ ("**If loading fails:**" ∷ [])
    ∷ ("- Ensure the binary matches the core dump exactly (same build, not rebuilt after crash)"
        ∷ [])
    ∷ ("- Check file paths are absolute and readable" ∷ [])
    ∷ ("- For Go: ensure Delve is installed (`dlv version`)" ∷ [])
    ∷ ("- For C/C++: ensure GDB 14+ is installed (`gdb -i dap`)" ∷ [])
    ∷ []
    ∷ ("---" ∷ [])
    ∷ []
    ∷ ("### Step 2: Understand the crash location" ∷ [])
    ∷ []
    ∷ ("Call: `context()`" ∷ [])
    ∷ []
    ∷ ("This is your most important call. Look for:" ∷ [])
    ∷ ("- **Crash function**: What function was executing when the crash occurred?" ∷ [])
    ∷ ("- **File and line**: Exact source location of the crash" ∷ [])
    ∷ ("- **Local variables**: What values were present at the crash frame?" ∷ [])
    ∷ ("- **Stack trace**: The full call chain leading to the crash" ∷ [])
    ∷ (signal_guide ∷ [])
    ∷ []
    ∷ ("---" ∷ [])
    ∷ []
    ∷ ("### Step 3: Examine the crash frame variables" ∷ [])
    ∷ []
    ∷ ("Look at every variable in the crash frame:" ∷ [])
    ∷ ("- Are any pointers nil? A nil dereference causes SIGSEGV." ∷ [])
    ∷ ("- Are indices within bounds? Out-of-bounds access can cause SIGSEGV." ∷ [])
    ∷ ("- Are any values nonsensical (e.g., negative size, huge number)? Suggests corruption." ∷ [])
    ∷ []
    ∷ ("Use `evaluate(expression=\"varName\")` to inspect variables not shown in context, or to drill into nested fields:"
        ∷ [])
    ∷ ("- `evaluate(expression=\"err.Error()\")`" ∷ [])
    ∷ ("- `evaluate(expression=\"request.Body\")`" ∷ [])
    ∷ ("- `evaluate(expression=\"items[idx]\")`" ∷ [])
    ∷ []
    ∷ ("---" ∷ [])
    ∷ []
    ∷ ("### Step 4: Walk up the call stack" ∷ [])
    ∷ []
    ∷ ("Each frame in the stack trace tells part of the story. For each suspicious frame:" ∷ [])
    ∷ []
    ∷ ("1. Use `context(frameId=<N>)` to inspect variables in that frame" ∷ [])
    ∷ ("2. Look for: what argument was passed to the crashing function? Was it already invalid?"
        ∷ [])
    ∷ ("3. Ask: could the caller have passed a nil/invalid value?" ∷ [])
    ∷ []
    ∷ ("Work backwards from the crash until you find where the bad value originated." ∷ [])
    ∷ []
    ∷ ("---" ∷ [])
    ∷ []
    ∷ ("### Step 5: Check other threads / goroutines" ∷ [])
    ∷ []
    ∷ ("Call: `info(kind=\"threads\")`" ∷ [])
    ∷ []
    ∷ ("In multi-threaded programs, the crash may be triggered by another thread's action (race condition). Look for:"
        ∷ [])
    ∷ ("- Other threads at suspicious locations" ∷ [])
    ∷ ("- Threads that may have corrupted shared state" ∷ [])
    ∷ []
    ∷ ("For each interesting thread: `context(threadId=<ID>)`" ∷ [])
    ∷ []
    ∷ ("---" ∷ [])
    ∷ []
    ∷ ("### Step 6: Formulate your conclusion" ∷ [])
    ∷ []
    ∷ ("Answer these questions:" ∷ [])
    ∷ ("1. **What crashed?** (function, file, line)" ∷ [])
    ∷ ("2. **Why did it crash?** (nil pointer, invalid index, assertion failure, etc.)" ∷ [])
    ∷ ("3. **What bad value caused it?** (which variable, what value it had)" ∷ [])
    ∷ ("4. **Where did that bad value come from?** (trace back through the call stack)" ∷ [])
    ∷ ("5. **What is the root cause?** (missing nil check, logic error, race condition, etc.)" ∷ [])
    ∷ []
    ∷ ("**Pattern recognition:**" ∷ [])
    ∷ ("- `SIGSEGV` on field access → check if the containing struct pointer is nil" ∷ [])
    ∷ ("- `SIGSEGV` in memory allocation → heap corruption (often from earlier use-after-free)"
        ∷ [])
    ∷ ("- `SIGABRT` in Go → runtime panic (check the panic message in variables)" ∷ [])
    ∷ ("- `SIGABRT` in C → double-free, assert(), or explicit abort()" ∷ [])
    ∷ ("- Very deep stack → infinite recursion (check for missing base case)" ∷ [])
    ∷ ("- Stack frame count = 1 in a goroutine → goroutine was running C code or in a syscall" ∷ [])
    ∷ []
    ∷ ("---" ∷ [])
    ∷ []
    ∷ ("### Step 7: Clean up" ∷ [])
    ∷ []
    ∷ ("Call: `stop()`" ∷ [])
    ∷ []
    ∷ []

unfoldable pub core_for : String → String → Bool → Document
unfolding signal_guide core_document text_of debugger_for
core_for binary_path core_path c_family =
    core_document binary_path core_path (debugger_for c_family) (text_of signal_guide)

-- `promptDebugCoreDump`
unfoldable pub prompt_debug_core_dump : Arguments → PromptResult
unfolding core_for is_c_family language_or_go
prompt_debug_core_dump arguments =
    let binary_path = arguments "binary_path" in
    let c_family = is_c_family (language_or_go (arguments "language")) in
    record {
      description = described "Post-mortem core dump analysis for " binary_path;
      content = text_of (core_for binary_path (arguments "core_path") c_family);
    }
