-- ===== src/Prompts/BinaryLevel.antt =====
-- prompts.go: `promptDebugBinary`.
use mcp_dap_server_k8s_forwa.Prelude.{List, [], ◌∷◌, String}
use mcp_dap_server_k8s_forwa.Prompts.{Document, text_of, Arguments, PromptResult, described}

unfoldable pub debugger_note : Document
debugger_note =
    ("Use 'delve' for Go binaries, 'gdb' for C/C++/Rust binaries." ∷ [])
    ∷ ("> - Go binary: `debug(mode=\"binary\", path=\"...\", debugger=\"delve\")`" ∷ [])
    ∷ ("> - C/C++ binary: `debug(mode=\"binary\", path=\"...\", debugger=\"gdb\")`" ∷ [])
    ∷ []

-- The call that the prompt shows.
abbrev pub binary_call : String → List String
binary_call path = "Call: `debug(mode=\"binary\", path=\"" ∷ path ∷ "\", stopOnEntry=true)`" ∷ []

unfoldable pub binary_document : String → String → Document
binary_document path debugger_note =
    ("## Binary / Assembly-Level Debug Session" ∷ [])
    ∷ []
    ∷ ("You are debugging a **compiled binary without source context**. You will work primarily with disassembled instructions, registers, and memory addresses."
        ∷ [])
    ∷ []
    ∷ ("**Binary:** `" ∷ path ∷ "`" ∷ [])
    ∷ []
    ∷ ("> " ∷ debugger_note ∷ [])
    ∷ []
    ∷ ("---" ∷ [])
    ∷ []
    ∷ ("### Step 1: Start the binary debug session" ∷ [])
    ∷ []
    ∷ (binary_call path)
    ∷ []
    ∷ ("Using `stopOnEntry=true` pauses immediately so you can orient yourself before execution proceeds."
        ∷ [])
    ∷ []
    ∷ ("Expected: The debugger stops at the binary entry point or `main`. You will see the current instruction address and possibly a stack trace."
        ∷ [])
    ∷ []
    ∷ ("---" ∷ [])
    ∷ []
    ∷ ("### Step 2: Get your bearings" ∷ [])
    ∷ []
    ∷ ("Call: `context()`" ∷ [])
    ∷ []
    ∷ ("Even without source, this shows:" ∷ [])
    ∷ ("- **Current location**: function name and address (e.g., `main.main at 0x004012a0`)" ∷ [])
    ∷ ("- **Stack trace**: the call chain with instruction pointer addresses" ∷ [])
    ∷ ("- **Variables**: any debug info that exists in the binary" ∷ [])
    ∷ []
    ∷ ("Note the `instructionPointerReference` (memory address) from the stack trace — you will use this for disassembly."
        ∷ [])
    ∷ []
    ∷ ("---" ∷ [])
    ∷ []
    ∷ ("### Step 3: Disassemble around the current location" ∷ [])
    ∷ []
    ∷ ("Call: `disassemble(address=\"0x<instructionPointerReference>\", count=30)`" ∷ [])
    ∷ []
    ∷ ("Read the assembly output:" ∷ [])
    ∷ ("- Identify the instruction sequence (what is the function doing?)" ∷ [])
    ∷ ("- Look for `call` instructions (function calls)" ∷ [])
    ∷ ("- Look for `cmp`/`test` + conditional jumps (branch logic)" ∷ [])
    ∷ ("- Look for `mov` with memory operands (data access)" ∷ [])
    ∷ []
    ∷ ("---" ∷ [])
    ∷ []
    ∷ ("### Step 4: Set breakpoints by address or function" ∷ [])
    ∷ []
    ∷ ("By function name (if debug symbols exist):" ∷ [])
    ∷ ("Call: `breakpoint(function=\"main.processRequest\")`" ∷ [])
    ∷ []
    ∷ ("By address (no symbols needed):" ∷ [])
    ∷ ("Call: `breakpoint(function=\"*0x00401234\")`" ∷ [])
    ∷ []
    ∷ ("> For GDB: you can use `*0xADDR` syntax to break at an absolute address." ∷ [])
    ∷ []
    ∷ ("---" ∷ [])
    ∷ []
    ∷ ("### Step 5: Step through assembly" ∷ [])
    ∷ []
    ∷ ("Use `step(mode=\"in\")` to step one instruction at a time (at assembly level, each step may be one machine instruction)."
        ∷ [])
    ∷ []
    ∷ ("After each step, call `context()` to see the new instruction pointer location." ∷ [])
    ∷ []
    ∷ ("**What to track:**" ∷ [])
    ∷ ("- Register values (available via `evaluate(expression=\"$rax\")` in GDB sessions)" ∷ [])
    ∷ ("- Memory at specific addresses: `evaluate(expression=\"*(int*)0xADDR\")`" ∷ [])
    ∷ ("- Stack pointer and frame pointer movement" ∷ [])
    ∷ []
    ∷ ("---" ∷ [])
    ∷ []
    ∷ ("### Step 6: Inspect memory and registers" ∷ [])
    ∷ []
    ∷ ("Call: `evaluate(expression=\"$rsp\")` — current stack pointer" ∷ [])
    ∷ ("Call: `evaluate(expression=\"$rip\")` — current instruction pointer" ∷ [])
    ∷ ("Call: `evaluate(expression=\"$rax\")` — return value register (x86-64)" ∷ [])
    ∷ []
    ∷ ("For memory: `evaluate(expression=\"*(long*)0x<address>\")`" ∷ [])
    ∷ []
    ∷ ("**Calling convention reminders (x86-64 System V):**" ∷ [])
    ∷ ("- Function args: rdi, rsi, rdx, rcx, r8, r9 (in order)" ∷ [])
    ∷ ("- Return value: rax" ∷ [])
    ∷ ("- Preserved: rbx, rbp, r12-r15" ∷ [])
    ∷ ("- Scratch: rax, rcx, rdx, rsi, rdi, r8-r11" ∷ [])
    ∷ []
    ∷ ("---" ∷ [])
    ∷ []
    ∷ ("### Step 7: Use disassembly to understand logic" ∷ [])
    ∷ []
    ∷ ("When you see a branch or call you want to understand:" ∷ [])
    ∷ ("1. Disassemble the target: `disassemble(address=\"0x<target>\", count=40)`" ∷ [])
    ∷ ("2. Set a breakpoint there, then `continue()` followed by `wait-for-stop(…)`" ∷ [])
    ∷ ("3. Inspect register/memory state at that point" ∷ [])
    ∷ []
    ∷ ("**Common patterns:**" ∷ [])
    ∷ ("- `call malloc` → memory allocation; check return in rax for NULL" ∷ [])
    ∷ ("- `test rax, rax; je` → null check" ∷ [])
    ∷ ("- `cmp [rsp+N], 0; jle` → bounds or sign check" ∷ [])
    ∷ ("- `rep stos` → memset-like loop" ∷ [])
    ∷ []
    ∷ ("---" ∷ [])
    ∷ []
    ∷ ("### Step 8: Formulate findings" ∷ [])
    ∷ []
    ∷ ("After analysis, state:" ∷ [])
    ∷ ("1. **What the binary does** at the function/address of interest" ∷ [])
    ∷ ("2. **Where the issue is** (address, instruction, logic)" ∷ [])
    ∷ ("3. **What the expected vs actual behavior is**" ∷ [])
    ∷ []
    ∷ ("---" ∷ [])
    ∷ []
    ∷ ("### Step 9: Clean up" ∷ [])
    ∷ []
    ∷ ("Call: `stop()`" ∷ [])
    ∷ []
    ∷ []

unfoldable pub binary_for : String → Document
unfolding debugger_note binary_document text_of
binary_for path = binary_document path (text_of debugger_note)

-- `promptDebugBinary`
unfoldable pub prompt_debug_binary : Arguments → PromptResult
unfolding binary_for
prompt_debug_binary arguments =
    let path = arguments "path" in
    record {
      description = described "Assembly-level binary debugging workflow for " path;
      content = text_of (binary_for path);
    }
