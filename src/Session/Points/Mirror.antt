-- ===== src/Session/Points/Mirror.antt =====
-- The tools `breakpoint` and `clear-breakpoints` of tools.go against an adapter that carries their
-- requests out.
use mcp_dap_server_k8s_forwa.Prelude.{
  ℤ, ◌≡◌, ◌≢◌, sym, ap, ◌∙◌, subst, String, List, [], ◌++◌, append_assoc, append-nil, Bool-cases,
  inl, inr, str_eq, eq_iff, if_true, if_false,
}
use mcp_dap_server_k8s_forwa.Dap.Request
use mcp_dap_server_k8s_forwa.Dap.Request.{Command}
use mcp_dap_server_k8s_forwa.Session.{Session, Breakpoints}
use mcp_dap_server_k8s_forwa.Session.Calls.{commands}
use mcp_dap_server_k8s_forwa.Session.Points.{lines_of}
use mcp_dap_server_k8s_forwa.Session.Points.Books.{str_eq-false}
use mcp_dap_server_k8s_forwa.Session.Reinit.Adapter.{
  Adapter, execute, execute_all, execute_all-append,
}
pub mod Set
pub mod Clear
pub mod Calls
pub mod Restored

-- The adapter holds, for every file, the stored lines, and the stored functions.
abbrev pub Mirrors : Adapter → Session → Type 0
Mirrors a s =
    ((g : String) → a.lines g ≡ lines_of g s.breakpoints) × (a.functions ≡ s.function_breakpoints)

-- What was written since `s` takes an adapter that mirrors `s` to one that mirrors `t`.
abbrev pub Follows : Session → Session → Type 0
Follows s t =
    (cs : List Command) × (commands t ≡ commands s ++ cs)
    × ((a : Adapter) → Mirrors a s → Mirrors (execute_all cs a) t)

pub Follows-refl : (s : Session) → Follows s s
Follows-refl s = ([], sym (append-nil (commands s)), λ a m. m)

pub Follows-trans : (s t u : Session) → Follows s t → Follows t u → Follows s u
Follows-trans s t u (cs, e, f) (ds, d, g) = (
  cs ++ ds,
  d ∙ (ap (λ xs. xs ++ ds) e ∙ append_assoc (commands s) cs ds),
  λ a m. subst (λ b. Mirrors b u) (sym (execute_all-append cs ds a)) (g (execute_all cs a) (f a m)),
)

-- A lookup at one file after a write, on both sides.
pub execute-lines :
    (file g : String) (lines : List ℤ) (a : Adapter) (m n : Breakpoints)
    → a.lines g ≡ lines_of g m
    → lines_of file n ≡ lines
    → (g ≢ file → lines_of g n ≡ lines_of g m)
    → (execute (Request.set_breakpoints file lines) a).lines g ≡ lines_of g n
execute-lines file g lines a m n h k l = elim (Bool-cases (str_eq g file)) [
  | inl e ↦ if_true _ _ e ∙ (sym k ∙ ap (λ x. lines_of x n) (sym ((eq_iff g file).0 e)))
  | inr e ↦ if_false _ _ e ∙ (h ∙ sym (l (str_eq-false g file e)))
]
