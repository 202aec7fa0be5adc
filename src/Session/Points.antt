-- ===== src/Session/Points.antt =====
-- tools.go: the tools `breakpoint` and `clear-breakpoints`, and the map of breakpoints that they
-- keep.
pub mod Books
pub mod Store
pub mod Persist
pub mod Clear
pub mod Mirror
use mcp_dap_server_k8s_forwa.Prelude.{
  ℕ, ℤ, pos, String, Bool, true, false, List, [], ◌∷◌, ◌++◌, Option, none, some, not, ◌||◌,
  if◌then◌else◌, eqb_ℤ, str_eq, any, last?,
}
use mcp_dap_server_k8s_forwa.Dap.Message.{Breakpoint, Body, set_breakpoints_body}
use mcp_dap_server_k8s_forwa.Dap.Methods.{set_breakpoints_request, set_function_breakpoints_request}
use mcp_dap_server_k8s_forwa.Session.{
  Session, Breakpoints, Env, Error, said, failed, naming, wrapped, Result, ok, err, Tool, pure,
  throw, ◌>>=◌, ◌>>◌, get, modify, guard_started, call, validated, typed_call, wrapping,
}

-- `ds.breakpoints[file]`: nil, an empty list, if there is no entry.
unfoldable pub lines_of : String → Breakpoints → List ℤ
lines_of file [] = []
lines_of file ((f, lines) ∷ m) = if str_eq f file then lines else lines_of file m

-- `delete(ds.breakpoints, file)`
unfoldable pub remove_file : String → Breakpoints → Breakpoints
remove_file file [] = []
remove_file file ((f, lines) ∷ m) =
    let rest = remove_file file m in if str_eq f file then rest else (f, lines) ∷ rest

-- `ds.breakpoints[file] = lines`
unfoldable pub put_lines : String → List ℤ → Breakpoints → Breakpoints
unfolding remove_file
put_lines file lines m = (file, lines) ∷ remove_file file m

-- What the tools answer.
pub data Answer : Type 0 where
  set_on_function : String → Answer
  already_set : String → ℤ → Answer
  set_at : ℤ → String → ℤ → Answer
  cleared_all : Answer
  cleared_in : String → Answer

-- `BreakpointToolParams`, with the zero values of what is left out.
pub record Params : Type 0 where
  pub file : String
  pub line : ℤ
  pub function : String

-- The cumulative list, without duplicates.
unfoldable pub with_function : String → List String → List String
with_function function functions =
    if any (λ f. str_eq f function) functions then functions else functions ++ (function ∷ [])

abbrev pub breakpoints_body : Body → Option (List Breakpoint)
breakpoints_body (set_breakpoints_body bs) = some bs
breakpoints_body _ = none

-- `len(resp.Body.Breakpoints) == 0`, and the last entry.
abbrev pub last_breakpoint : List Breakpoint → Tool Breakpoint
last_breakpoint bs = elim (last? bs) [
  | none ↦ throw (said "no breakpoints returned")
  | some b ↦ if b.verified then pure b else throw (failed "breakpoint not verified" b.message)
]

abbrev pub put_breakpoints : Breakpoints → Session → Session
put_breakpoints m s = record s { breakpoints = m }

abbrev pub put_functions : List String → Session → Session
put_functions fs s = record s { function_breakpoints = fs }

abbrev pub persist_functions : List String → String → Tool Answer
persist_functions functions function = do
  modify (put_functions functions)
  pure (set_on_function function)

-- The part of `breakpoint` for a function.
unfoldable pub breakpoint_on_function : Env → String → Tool Answer
breakpoint_on_function env function = do
  s ← get
  let functions = with_function function s.function_breakpoints
  validated env "unable to set function breakpoint" (set_function_breakpoints_request functions)
  persist_functions functions function

abbrev pub persist_lines : String → List ℤ → Breakpoint → Tool Answer
persist_lines file lines b = do
  t ← get
  modify (put_breakpoints (put_lines file lines t.breakpoints))
  pure (set_at b.id file b.line)

-- The request with the cumulative list, and the answered breakpoint for its last line.
abbrev pub set_lines : Env → String → List ℤ → Tool (List Breakpoint)
set_lines env file lines =
    wrapping "unable to set breakpoint"
      (typed_call env breakpoints_body (set_breakpoints_request file lines))

-- The part of `breakpoint` for a line that the file does not have yet.
unfoldable pub breakpoint_at_line : Env → String → ℤ → Tool Answer
breakpoint_at_line env file line = do
  s ← get
  let lines = lines_of file s.breakpoints ++ (line ∷ [])
  bs ← set_lines env file lines
  b ← last_breakpoint bs
  persist_lines file lines b

abbrev pub has_line : ℤ → List ℤ → Bool
has_line line lines = any (λ l. eqb_ℤ l line) lines

-- `breakpoint`
unfoldable pub breakpoint : Env → Params → Tool Answer
breakpoint env p = do
  guard_started
  s ← get
  if not (str_eq p.function "")
      then breakpoint_on_function env p.function
      else (if str_eq p.file "" || eqb_ℤ p.line (pos 0)
          then throw (said "either function or file+line is required")
          else (if has_line p.line (lines_of p.file s.breakpoints)
              then pure (already_set p.file p.line)
              else breakpoint_at_line env p.file p.line))

-- The loop over the files: the first error ends it.
abbrev pub empty_file : Env → String → Tool (Unit {0})
empty_file env file = validated env "unable to clear breakpoints" (set_breakpoints_request file [])

unfoldable pub clear_files : Env → Breakpoints → Tool (Unit {0})
clear_files env [] = pure tt
clear_files env ((file, lines) ∷ m) = do empty_file env file; clear_files env m

-- Everything is cleared: the requests, and then the maps.
abbrev pub forget_all : Tool Answer
forget_all = do modify (λ t. put_functions [] (put_breakpoints [] t)); pure cleared_all

abbrev pub clear_functions : Env → Tool (Unit {0})
clear_functions env =
    validated env "unable to clear breakpoints" (set_function_breakpoints_request [])

unfoldable pub clear_all : Env → Tool Answer
clear_all env = do s ← get; clear_files env s.breakpoints; clear_functions env; forget_all

abbrev pub forget_file : String → Tool Answer
forget_file file = do
  t ← get
  modify (put_breakpoints (remove_file file t.breakpoints))
  pure (cleared_in file)

unfoldable pub clear_file : Env → String → Tool Answer
clear_file env file = do empty_file env file; forget_file file

-- `clearBreakpoints`, with the parameters `file` and `all`.
unfoldable pub clear_breakpoints : Env → String → Bool → Tool Answer
clear_breakpoints env file everything = do
  guard_started
  if everything
      then clear_all env
      else (if not (str_eq file "")
          then clear_file env file
          else throw (said "specify 'file' or 'all'"))
