-- ===== src/Prompts/Working.antt =====
-- The calls that the prompts `debug-source` and `debug-core-dump` show, as the `debug` tool takes
-- them; those of `debug-attach` and `debug-binary` are left out.
use mcp_dap_server_k8s_forwa.Prelude.{
  ◌≡◌, refl, String, Bool, true, false, List, [], ◌∷◌, Option, none, some, pos, str_eq,
}
use mcp_dap_server_k8s_forwa.Backend.{Backend, delve, gdb, connect, launch_args, core_args}
use mcp_dap_server_k8s_forwa.Dap.Request.{Command}
use mcp_dap_server_k8s_forwa.Session.{Session, ok}
use mcp_dap_server_k8s_forwa.Session.Lifecycle.{
  DebugParams, connects, debug_mode, check_required, select_backend,
}
use mcp_dap_server_k8s_forwa.Session.Startup.{start_command}
use mcp_dap_server_k8s_forwa.Session.Debug.{World, check_from, check_params}
use mcp_dap_server_k8s_forwa.Prompts.{Document, is_c_family, language_or_go, debugger_for, mode_for}
use mcp_dap_server_k8s_forwa.Prompts.Source.{source_call, source_document, source_for}
use mcp_dap_server_k8s_forwa.Prompts.CoreDump.{core_call, core_document, core_for}

-- A document has the line.
pub data Shows (line : List String) : Document → Type 0 where
  here : (d : Document) → Shows line (line ∷ d)
  there : {x : List String} {d : Document} → Shows line d → Shows line (x ∷ d)

-- The parameters that such a call gives; the others are left out.
abbrev pub shown_params : String → String → String → String → DebugParams
shown_params mode path core_file_path debugger = record {
  mode = mode;
  path = path;
  args = [];
  core_file_path = core_file_path;
  process_id = pos 0;
  breakpoints = [];
  stop_on_entry = false;
  port = "";
  debugger = debugger;
  gdb_path = "";
}

-- The checks pass with a backend, and the backend builds the request that starts the session.
abbrev pub Works : World → DebugParams → Session → String → Type 0
Works w p s mode =
    (b : Backend) × ((check_params w p s).0 ≡ ok (mode, b))
    × (cmd : Command) × (start_command w.cwd b mode p true ≡ ok cmd)

abbrev WorksFrom : World → DebugParams → Option Backend → Session → String → Type 0
WorksFrom w p o s mode =
    (b : Backend) × ((check_from w p o s).0 ≡ ok (mode, b))
    × (cmd : Command) × (start_command w.cwd b mode p true ≡ ok cmd)

module _ (w : World) (s : Session) (found : String) (g : w.gdb_found ≡ some found) where
  source_WorksFrom :
      (path : String) (o : Option Backend) (c : Bool)
      → str_eq path "" ≡ false
      → connects o ≡ false
      → WorksFrom w (shown_params (mode_for c) path "" (debugger_for c)) o s (mode_for c)
  unfolding debug_mode check_required select_backend start_command launch_args mode_for debugger_for
  source_WorksFrom path none true h k = (gdb found, rw (h, g) refl, _, refl)
  source_WorksFrom path none false h k = (delve, rw h refl, _, refl)
  source_WorksFrom path (some delve) true h k = (gdb found, rw (h, g) refl, _, refl)
  source_WorksFrom path (some delve) false h k = (delve, rw h refl, _, refl)
  source_WorksFrom path (some (gdb old)) true h k = (gdb found, rw (h, g) refl, _, refl)
  source_WorksFrom path (some (gdb old)) false h k = (delve, rw h refl, _, refl)
  source_WorksFrom path (some (connect addr timeout)) c h k = absurd (cc k)

  core_WorksFrom :
      (path core : String) (o : Option Backend) (c : Bool)
      → str_eq path "" ≡ false
      → str_eq core "" ≡ false
      → connects o ≡ false
      → WorksFrom w (shown_params "core" path core (debugger_for c)) o s "core"
  unfolding debug_mode check_required select_backend start_command core_args debugger_for
  core_WorksFrom path core none true h l k = (gdb found, rw (h, l, g) refl, _, refl)
  core_WorksFrom path core none false h l k = (delve, rw (h, l) refl, _, refl)
  core_WorksFrom path core (some delve) true h l k = (gdb found, rw (h, l, g) refl, _, refl)
  core_WorksFrom path core (some delve) false h l k = (delve, rw (h, l) refl, _, refl)
  core_WorksFrom path core (some (gdb old)) true h l k = (gdb found, rw (h, l, g) refl, _, refl)
  core_WorksFrom path core (some (gdb old)) false h l k = (delve, rw (h, l) refl, _, refl)
  core_WorksFrom path core (some (connect addr timeout)) c h l k = absurd (cc k)

-- The prompts `debug-source` and `debug-core-dump` each show a call of `debug` that works, for every language:
-- on a server without a connection of its own, where gdb is found and the paths are not empty, the checks of `debug`
-- accept its parameters, and the backend that they choose builds the request for its mode. In particular
-- `debug-source` never recommends the mode `source` for GDB.
pub prompts-Works :
    (w : World) (s : Session) (found path core language breakpoints : String)
    → w.gdb_found ≡ some found
    → connects s.backend ≡ false
    → str_eq path "" ≡ false
    → str_eq core "" ≡ false
    → let c = is_c_family (language_or_go language) in
      Shows
        (source_call (mode_for c) path (debugger_for c))
        (source_for path (language_or_go language) breakpoints c)
      × Works w (shown_params (mode_for c) path "" (debugger_for c)) s (mode_for c)
      × Shows (core_call path core (debugger_for c)) (core_for path core c)
      × Works w (shown_params "core" path core (debugger_for c)) s "core"
unfolding check_params source_for source_document core_for core_document
prompts-Works w s found path core language breakpoints g k h l =
    let c = is_c_family (language_or_go language) in
    (
      there (there (there (there (there (there (there (there (there (there (here _)))))))))),
      source_WorksFrom w s found g path s.backend c h k,
      there (
          there (
            there (
              there (
                there (
                  there
                    (there (there (there (there (there (there (there (there (here _)))))))))))))),
      core_WorksFrom w s found g path core s.backend c h l k,
    )
