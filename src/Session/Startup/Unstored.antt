-- ===== src/Session/Startup/Unstored.antt =====
-- The initial breakpoints of `debug`: what is sent for them and what is stored.
use mcp_dap_server_k8s_forwa.Prelude.{
  pos, ◌≡◌, refl, String, List, [], ◌∷◌, ◌++◌, ◌&&◌, not, if◌then◌else◌, str_eq, ltb_ℤ, Bool-cases,
  inl, inr,
}
use mcp_dap_server_k8s_forwa.Dap.Request
use mcp_dap_server_k8s_forwa.Dap.Request.{Command}
use mcp_dap_server_k8s_forwa.Dap.Methods.{set_breakpoints_request, set_function_breakpoints_request}
use mcp_dap_server_k8s_forwa.Session.{Session, Env, ok, pure}
use mcp_dap_server_k8s_forwa.Session.Calls.{commands, validated-commands, validated-Kept}
use mcp_dap_server_k8s_forwa.Session.Points.Store.{set_breakpoints-Sends}
use mcp_dap_server_k8s_forwa.Session.Points.Persist.{Kept-SameBooks}
use mcp_dap_server_k8s_forwa.Session.Points.Clear.{set_function_breakpoints-Sends}
use mcp_dap_server_k8s_forwa.Session.Reinit.Applies.{Writes, Writes-then, Writes-none}
use mcp_dap_server_k8s_forwa.Session.Control.{BreakpointSpec}
use mcp_dap_server_k8s_forwa.Session.Startup.{set_initial_one, set_initial}

-- The request for one breakpoint: none if it names neither a function nor a line.
abbrev pub initial_command : BreakpointSpec → List Command
initial_command bp =
    if not (str_eq bp.function "")
    then Request.set_function_breakpoints (bp.function ∷ []) ∷ []
    else (if not (str_eq bp.file "") && ltb_ℤ (pos 0) bp.line
        then Request.set_breakpoints bp.file (bp.line ∷ []) ∷ []
        else [])

abbrev pub initial_commands : List BreakpointSpec → List Command
initial_commands [] = []
initial_commands (bp ∷ bps) = initial_command bp ++ initial_commands bps

set_initial_one-Writes :
    (env : Env) (bp : BreakpointSpec) (s : Session)
    → Writes (initial_command bp) (set_initial_one env bp) s
unfolding set_initial_one
set_initial_one-Writes env bp s = elim (Bool-cases (not (str_eq bp.function ""))) [
  | inl f ↦ simp f (λ x h.
      let p : String = "unable to set function breakpoint" in
      let m = set_function_breakpoints_request (bp.function ∷ []) in
      (
        validated-commands env p _ m s (set_function_breakpoints-Sends (bp.function ∷ [])) h,
        Kept-SameBooks s _ (validated-Kept env p m s),
      ))
  | inr f ↦ elim (Bool-cases (not (str_eq bp.file "") && ltb_ℤ (pos 0) bp.line)) [
    | inl g ↦
        simp (f, g)
          (λ x h.
            let p : String = "unable to set breakpoint" in
            let m = set_breakpoints_request bp.file (bp.line ∷ []) in
            (
              validated-commands env p _ m s (set_breakpoints-Sends bp.file (bp.line ∷ [])) h,
              Kept-SameBooks s _ (validated-Kept env p m s),
            ))
    | inr g ↦ simp (f, g) (Writes-none (pure {A = Unit {0}} tt) s refl)
  ]
]

pub set_initial-Writes :
    (env : Env) (bps : List BreakpointSpec) (s : Session)
    → Writes (initial_commands bps) (set_initial env bps) s
unfolding set_initial
set_initial-Writes env [] s = Writes-none (set_initial env []) s refl
set_initial-Writes env (bp ∷ bps) s =
    Writes-then (initial_command bp) (initial_commands bps) (set_initial_one env bp)
      (λ _. set_initial env bps) s (set_initial_one-Writes env bp s)
      (λ a e. set_initial-Writes env bps (set_initial_one env bp s).1)

-- When the initial breakpoints of `debug` are set with success, the adapter was sent each of them in a
-- request of its own, and nothing of it is stored: both maps are as they were. So a later
-- `reinitialize` does not set them again, and of two lines of one file, or of two functions, the
-- second request replaces the first.
pub set_initial-unstored :
    (env : Env) (bps : List BreakpointSpec) (s : Session)
    → (set_initial env bps s).0 ≡ ok tt
    → let t = (set_initial env bps s).1 in
      (commands t ≡ commands s ++ initial_commands bps)
      × (t.breakpoints ≡ s.breakpoints)
      × (t.function_breakpoints ≡ s.function_breakpoints)
set_initial-unstored env bps s h = let (c, k) = set_initial-Writes env bps s tt h in (c, k.0, k.1)
