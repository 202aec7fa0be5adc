-- ===== src/Tests/Hosts.antt =====
-- The host's side on concrete inputs: numbers, levels, names of logs, spawned processes, prompts.
use mcp_dap_server_k8s_forwa.Prelude.{
  arith, ◌≡◌, refl, pos, negsuc, String, List, [], ◌∷◌, none, some, true, false, str_eq,
}
use mcp_dap_server_k8s_forwa.Text.{AllChars, is_space, codes, has_prefix}
use mcp_dap_server_k8s_forwa.FlexInt.{number_text, string_text, flex_int, unmarshal_json}
use mcp_dap_server_k8s_forwa.FlexInt.Reads.{
  itoa, IsInt, Source, unmarshal_json-itoa, unmarshal_json-IsInt,
}
use mcp_dap_server_k8s_forwa.Backend.{delve, failure}
use mcp_dap_server_k8s_forwa.Backend.Spawn.{
  Host, running, spawned, spawn_failed, listen_address, delve_command, spawn,
}
use mcp_dap_server_k8s_forwa.Backend.Spawn.Outcome.{Gone, spawn-fails, spawn-announced}

unmarshal_json-itoa_example :
    (unmarshal_json (number_text (itoa (negsuc 19))) ≡ flex_int (negsuc 19))
    × (unmarshal_json (string_text (itoa (negsuc 19))) ≡ flex_int (negsuc 19))
unmarshal_json-itoa_example = unmarshal_json-itoa (negsuc 19) (omega arith)

-- A string that is not a decimal number is refused, and so is a number that is too large.
twenty : unmarshal_json (string_text (codes "20")) ≡ flex_int (pos 20)
unfolding unmarshal_json
twenty = refl

unmarshal_json-IsInt_example : Source (string_text (codes "20")) (pos 20) × IsInt (pos 20)
unmarshal_json-IsInt_example = unmarshal_json-IsInt (string_text (codes "20")) (pos 20) twenty

spaces : AllChars (λ c. is_space c ≡ true) " \t"
unfolding is_space
spaces = (refl, (refl, tt))

abbrev host : List String → Host
host output = record {
  stdin_pipe = none;
  stdout_pipe = none;
  start = none;
  pid = 77;
  output = output;
  output_end = "EOF";
}

abbrev warning : String
warning = "warning: no go.mod\n"

abbrev listening : String
listening = "DAP server listening at: 127.0.0.1:38697\n"

ended : (spawn (host (warning ∷ [])) delve ":0").0 ≡ spawn_failed (failure "EOF")
unfolding spawn
ended = refl

spawn-fails_example : Gone (spawn (host (warning ∷ [])) delve ":0").1
spawn-fails_example = spawn-fails (host (warning ∷ [])) delve ":0" (failure "EOF") ended

not_listening : has_prefix warning "DAP server listening at" ≡ false
unfolding has_prefix
not_listening = refl

is_listening : has_prefix listening "DAP server listening at" ≡ true
unfolding has_prefix
is_listening = refl

has_address : str_eq (listen_address listening) "" ≡ false
unfolding listen_address
has_address = refl

spawn-announced_example :
    spawn (host (warning ∷ listening ∷ [])) delve ":0"
    ≡ (spawned (some 77) (listen_address listening), running 77 (delve_command ":0"))
spawn-announced_example =
    spawn-announced (host (warning ∷ listening ∷ [])) ":0" (warning ∷ []) listening [] refl refl
      refl (not_listening, tt) is_listening has_address
