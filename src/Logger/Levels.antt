-- ===== src/Logger/Levels.antt =====
-- The levels that the environment can choose, and what is logged at them.
use mcp_dap_server_k8s_forwa.Prelude.{
  ◌≡◌, refl, String, List, [], ◌∷◌, ◌++◌, ◌⊎◌, inl, inr, if_keeps, ◌∙◌, map, true,
}
use Prim.Native.String
use mcp_dap_server_k8s_forwa.Text.{
  AllChars, Text, codes, lower, trim_space, trim_left-spaces, is_space,
}
use mcp_dap_server_k8s_forwa.Logger.{
  LogLevel, log_error, log_info, log_debug, log_trace, level_name, level_of, parse_log_level,
  log_at,
}

-- The four named levels.
data IsNamed : LogLevel → Type 0 where
  named_error : IsNamed log_error
  named_info : IsNamed log_info
  named_debug : IsNamed log_debug
  named_trace : IsNamed log_trace

level_of-IsNamed : (s : Text) → IsNamed (level_of s)
unfolding level_of
level_of-IsNamed s = if_keeps IsNamed _ _ _ named_error (
    if_keeps IsNamed _ _ _ named_info
      (if_keeps IsNamed _ _ _ named_debug (if_keeps IsNamed _ _ _ named_trace named_info)))

parse_log_level-IsNamed : (s : String) → IsNamed (parse_log_level s)
unfolding parse_log_level
parse_log_level-IsNamed s = level_of-IsNamed (map lower (codes (trim_space s)))

name_read_back : {l : LogLevel} → IsNamed l → parse_log_level (level_name l) ≡ l
unfolding parse_log_level level_name
name_read_back named_error = refl
name_read_back named_info = refl
name_read_back named_debug = refl
name_read_back named_trace = refl

spaced :
    (p s : String)
    → AllChars (λ c. is_space c ≡ true) p
    → parse_log_level (String.◌++◌ p s) ≡ parse_log_level s
unfolding parse_log_level trim_space
spaced p s h = rw (trim_left-spaces p s h) refl

-- The name of the level that any setting chooses is read back as that level, with any spaces in front of it.
pub parse_log_level-level_name :
    (s p : String)
    → AllChars (λ c. is_space c ≡ true) p
    → parse_log_level (String.◌++◌ p (level_name (parse_log_level s))) ≡ parse_log_level s
parse_log_level-level_name s p h =
    spaced p ((level_name (parse_log_level s))) h ∙ name_read_back (parse_log_level-IsNamed s)

log_at-IsNamed :
    {l : LogLevel} (line : String) (log : List String)
    → IsNamed l
    → (log_at l log_error line log ≡ log ++ (line ∷ []))
      × ((log_at l log_trace line log ≡ log) ⊎ (l ≡ log_trace))
unfolding log_at
log_at-IsNamed line log named_error = (refl, inl refl)
log_at-IsNamed line log named_info = (refl, inl refl)
log_at-IsNamed line log named_debug = (refl, inl refl)
log_at-IsNamed line log named_trace = (refl, inr refl)

-- Whatever the setting, a line at the level of errors is logged, and a line at the trace level is
-- logged only if the setting is the trace level.
pub log_at-parse_log_level :
    (s : String) (line : String) (log : List String)
    → (log_at (parse_log_level s) log_error line log ≡ log ++ (line ∷ []))
      × ((log_at (parse_log_level s) log_trace line log ≡ log) ⊎ (parse_log_level s ≡ log_trace))
log_at-parse_log_level s line log = log_at-IsNamed line log (parse_log_level-IsNamed s)
