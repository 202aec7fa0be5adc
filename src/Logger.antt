-- ===== src/Logger.antt =====
-- logger.go: the level of the log file.
pub mod Levels
use mcp_dap_server_k8s_forwa.Prelude.{
  ◌≡◌, refl, ℤ, pos, String, Bool, List, [], ◌∷◌, ◌++◌, map, ◌||◌, not, if◌then◌else◌, ltb_ℤ, eqb_ℤ,
}
use mcp_dap_server_k8s_forwa.Text.{Text, codes, eqb_text, trim_space, lower}

-- `LogLevel` is an `int` with four named values.
abbrev pub LogLevel : Type 0
LogLevel = ℤ

abbrev pub log_error : LogLevel
log_error = pos 0

abbrev pub log_info : LogLevel
log_info = pos 1

abbrev pub log_debug : LogLevel
log_debug = pos 2

abbrev pub log_trace : LogLevel
log_trace = pos 3

-- `String`
unfoldable pub level_name : LogLevel → String
level_name l =
    if eqb_ℤ l log_error
    then "error"
    else if eqb_ℤ l log_info
    then "info"
    else if eqb_ℤ l log_debug
    then "debug"
    else if eqb_ℤ l log_trace
    then "trace"
    else "unknown"

-- `switch strings.ToLower(strings.TrimSpace(s))`
abbrev pub normal_form : String → Text
normal_form s = map lower (codes (trim_space s))

unfoldable pub level_of : Text → LogLevel
level_of s =
    if eqb_text s (codes "error")
    then log_error
    else if eqb_text s (codes "info") || eqb_text s []
    then log_info
    else if eqb_text s (codes "debug")
    then log_debug
    else if eqb_text s (codes "trace")
    then log_trace
    else log_info

-- `parseLogLevel`
unfoldable pub parse_log_level : String → LogLevel
unfolding level_of lower trim_space
parse_log_level s = level_of (normal_form s)

-- `logAt`, which appends a line to the log at the level `current`.
unfoldable pub log_at : LogLevel → LogLevel → String → List String → List String
log_at current lvl line log = if ltb_ℤ current lvl then log else log ++ (line ∷ [])

shouting : parse_log_level " TRACE\n" ≡ log_trace
unfolding parse_log_level
shouting = refl

unset : parse_log_level "" ≡ log_info
unfolding parse_log_level
unset = refl
