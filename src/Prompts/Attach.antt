-- ===== src/Prompts/Attach.antt =====
-- prompts.go: `promptDebugAttach`.
use mcp_dap_server_k8s_forwa.Prelude.{[], ◌∷◌, String, if◌then◌else◌, str_eq}
use mcp_dap_server_k8s_forwa.Prompts.{Document, text_of, Arguments, PromptResult, described}

unfoldable pub program_description : String → Document
program_description program = [] ∷ ("**Program description:** " ∷ program ∷ []) ∷ [] ∷ []

unfoldable pub attach_document : String → String → Document
attach_document program_desc pid =
    ("## Live Attach Debug Session" ∷ [])
    ∷ []
    ∷ ("You are attaching to a **running process** to diagnose its live behavior." ∷ program_desc
        ∷ [])
    ∷ []
    ∷ ("**Target PID:** `" ∷ pid ∷ "`" ∷ [])
    ∷ []
    ∷ ("> **Important:** The process continues running after you attach. You are observing live state."
        ∷ [])
    ∷ ("> Be careful: setting breakpoints in a production process will pause it for all users."
        ∷ [])
    ∷ []
    ∷ ("---" ∷ [])
    ∷ []
    ∷ ("### Step 1: Attach to the process" ∷ [])
    ∷ []
    ∷ ("Two sub-cases of attach — pick the one matching your setup:" ∷ [])
    ∷ []
    ∷ ("**(a) LOCAL attach by PID:**" ∷ [])
    ∷ ("Call: `debug(mode=\"attach\", processId=" ∷ pid ∷ ")`" ∷ [])
    ∷ []
    ∷ ("**(b) PRE-CONNECTED (remote k8s via ConnectBackend):**" ∷ [])
    ∷ ("If this mcp-dap-server was started with `--connect` / `DAP_CONNECT_ADDR` (the wrapper script `dlv-k8s-mcp.sh` does this automatically), the remote dlv in the pod already owns the target. Call:"
        ∷ [])
    ∷ ("`debug(mode=\"attach\")` — no processId, no port." ∷ [])
    ∷ []
    ∷ ("If you cannot tell which sub-case applies: try (b) first; if you get `processId is required for attach mode` the setup is (a) and you need the PID."
        ∷ [])
    ∷ []
    ∷ ("Expected (both sub-cases, v0.2.1+): the call returns immediately with a readiness message. The debuggee is already running; no stop event will arrive until a breakpoint is hit by an external trigger."
        ∷ [])
    ∷ []
    ∷ ("**If attach fails:**" ∷ [])
    ∷ ("- Sub-case (a): verify the PID, check `ptrace_scope` (`cat /proc/sys/kernel/yama/ptrace_scope`), try with elevated permissions, confirm the process hasn't exited."
        ∷ [])
    ∷ ("- Sub-case (b): tail `/tmp/mcp-dap-server.<ns>-<svc>.latest.log` — the startup banner should read `ConnectBackend mode, target localhost:NNNNN`. If it's missing, you're accidentally in (a); ask the operator."
        ∷ [])
    ∷ []
    ∷ ("---" ∷ [])
    ∷ []
    ∷ ("### Step 2: Understand what the process was doing" ∷ [])
    ∷ []
    ∷ ("Immediately after attach, call: `context()`" ∷ [])
    ∷ []
    ∷ ("Look for:" ∷ [])
    ∷ ("- **Current location**: What function/file is it in?" ∷ [])
    ∷ ("- **Stack trace**: What sequence of calls led here?" ∷ [])
    ∷ ("- **Variables**: What are the current local values?" ∷ [])
    ∷ []
    ∷ ("If the process was in a system call or blocking operation, the stack will show that." ∷ [])
    ∷ []
    ∷ ("---" ∷ [])
    ∷ []
    ∷ ("### Step 3: Check all threads" ∷ [])
    ∷ []
    ∷ ("Call: `info(kind=\"threads\")`" ∷ [])
    ∷ []
    ∷ ("This is especially important for concurrent programs. Look for:" ∷ [])
    ∷ ("- Threads blocked on the same mutex (potential deadlock)" ∷ [])
    ∷ ("- Threads in unexpected functions" ∷ [])
    ∷ ("- Unexpectedly high thread counts" ∷ [])
    ∷ []
    ∷ ("For each suspicious thread, inspect it:" ∷ [])
    ∷ ("Call: `context(threadId=<ID>)`" ∷ [])
    ∷ []
    ∷ ("---" ∷ [])
    ∷ []
    ∷ ("### Step 4: Set targeted breakpoints (carefully)" ∷ [])
    ∷ []
    ∷ ("Only set breakpoints if you have a specific hypothesis to test." ∷ [])
    ∷ []
    ∷ ("Call: `breakpoint(function=\"packageName.FunctionName\")`" ∷ [])
    ∷ []
    ∷ ("Then resume (non-blocking): `continue()`" ∷ [])
    ∷ ("And wait for the breakpoint: `wait-for-stop(timeoutSec=60, pauseIfTimeout=true)`" ∷ [])
    ∷ []
    ∷ ("The process resumes; `wait-for-stop` returns full context when the" ∷ [])
    ∷ ("breakpoint is hit. Inspect state at that point." ∷ [])
    ∷ []
    ∷ ("---" ∷ [])
    ∷ []
    ∷ ("### Step 5: Diagnose the issue" ∷ [])
    ∷ []
    ∷ ("Common attach scenarios and what to look for:" ∷ [])
    ∷ []
    ∷ ("**High CPU usage:**" ∷ [])
    ∷ ("- Pause several times with `pause()` + `context()`" ∷ [])
    ∷ ("- Which function keeps appearing in the stack? That's likely the hot path." ∷ [])
    ∷ ("- Look for tight loops, repeated work, or missing caches." ∷ [])
    ∷ []
    ∷ ("**Memory leak:**" ∷ [])
    ∷ ("- Check variables for large collections, caches without eviction, or accumulating slices."
        ∷ [])
    ∷ ("- Use `evaluate()` to check sizes: `evaluate(expression=\"len(cache)\")`" ∷ [])
    ∷ []
    ∷ ("**Deadlock / hang:**" ∷ [])
    ∷ ("- All threads should show where they're blocked" ∷ [])
    ∷ ("- Look for goroutines stuck in channel operations or mutexes" ∷ [])
    ∷ ("- Check if any goroutine holds a lock that another is waiting for" ∷ [])
    ∷ []
    ∷ ("**Unexpected behavior:**" ∷ [])
    ∷ ("- Set a breakpoint at the function exhibiting the behavior" ∷ [])
    ∷ ("- Inspect inputs and internal state" ∷ [])
    ∷ []
    ∷ ("---" ∷ [])
    ∷ []
    ∷ ("### Step 6: Conclude and detach" ∷ [])
    ∷ []
    ∷ ("State your findings: **\"The process is [doing X] because [reason]. The issue is [description].\"**"
        ∷ [])
    ∷ []
    ∷ ("To **terminate** the process: `stop()`" ∷ [])
    ∷ ("To **detach** (leave the process running): `stop(detach=true)`" ∷ [])
    ∷ []
    ∷ ("> Use detach when you want to observe without disrupting the process long-term." ∷ [])
    ∷ []
    ∷ []

-- `promptDebugAttach`
unfoldable pub prompt_debug_attach : Arguments → PromptResult
unfolding program_description attach_document text_of
prompt_debug_attach arguments =
    let pid = arguments "pid" in
    let program = arguments "program" in
    record {
      description = described "Live attach debugging workflow for PID " pid;
      content = text_of (
          attach_document (if str_eq program "" then "" else text_of (program_description program))
            pid);
    }
