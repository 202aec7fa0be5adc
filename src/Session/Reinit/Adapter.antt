-- ===== src/Session/Reinit/Adapter.antt =====
-- What the requests mean to the adapter, by the protocol: `setBreakpoints` replaces the lines of
-- its file, `setFunctionBreakpoints` replaces the functions, and nothing else touches either.
use mcp_dap_server_k8s_forwa.Prelude.{
  ℤ, pos, ◌≡◌, ◌≢◌, refl, sym, ap, ◌∙◌, String, List, [], ◌∷◌, ◌++◌, true, if◌then◌else◌, if_true,
  if_false, Bool-cases, subst, some, str_eq, eq_iff, eq_refl, inl, inr,
}
use mcp_dap_server_k8s_forwa.Backend.{Backend, attach_args, built}
use mcp_dap_server_k8s_forwa.Dap.Message.{Fields}
use mcp_dap_server_k8s_forwa.Dap.Request
use mcp_dap_server_k8s_forwa.Dap.Request.{Command}
use mcp_dap_server_k8s_forwa.Session.{Session, Breakpoints, Env, ok}
use mcp_dap_server_k8s_forwa.Session.Calls.{commands}
use mcp_dap_server_k8s_forwa.Session.Points.{lines_of}
use mcp_dap_server_k8s_forwa.Session.Points.Books.{IsMap, IsAbsent, str_eq-ne}
use mcp_dap_server_k8s_forwa.Session.Reinit.{reinitialize}
use mcp_dap_server_k8s_forwa.Session.Reinit.Applies.{file_commands, function_commands}
use mcp_dap_server_k8s_forwa.Session.Reinit.Handshake.{reinit_commands, reinitialize-ok}

pub record Adapter : Type 0 where
  pub lines : String → List ℤ
  pub functions : List String

-- An adapter that has just been started has no breakpoints.
abbrev pub fresh : Adapter
fresh = record { lines = λ f. []; functions = [] }

abbrev pub execute : Command → Adapter → Adapter
execute (Request.set_breakpoints file lines) a = record a {
  lines = λ g. if str_eq g file then lines else a.lines g;
}
execute (Request.set_function_breakpoints functions) a = record a { functions = functions }
execute _ a = a

abbrev pub execute_all : List Command → Adapter → Adapter
execute_all [] a = a
execute_all (c ∷ cs) a = execute_all cs (execute c a)

pub execute_all-append :
    (cs ds : List Command) (a : Adapter)
    → execute_all (cs ++ ds) a ≡ execute_all ds (execute_all cs a)
execute_all-append [] ds a = refl
execute_all-append (c ∷ cs) ds a = execute_all-append cs ds (execute c a)

files-functions :
    (m : Breakpoints) (a : Adapter) → (execute_all (file_commands m) a).functions ≡ a.functions
files-functions [] a = refl
files-functions ((f, lines) ∷ m) a = files-functions m (execute (Request.set_breakpoints f lines) a)

files-absent :
    (m : Breakpoints) (a : Adapter) (g : String)
    → IsAbsent g m
    → (execute_all (file_commands m) a).lines g ≡ a.lines g
files-absent [] a g h = refl
files-absent ((f, lines) ∷ m) a g (n, h) =
    files-absent m (execute (Request.set_breakpoints f lines) a) g h
    ∙ if_false _ _ (str_eq-ne g f (λ e. n (sym e)))

files-lines :
    (m : Breakpoints) (a : Adapter) (g : String)
    → IsMap m
    → a.lines g ≡ []
    → (execute_all (file_commands m) a).lines g ≡ lines_of g m
unfolding lines_of
files-lines [] a g h e = e
files-lines ((f, lines) ∷ m) a g (n, h) e =
    let b = execute (Request.set_breakpoints f lines) a in
    elim (Bool-cases (str_eq f g)) [
      | inl u ↦
          let q = (eq_iff f g).0 u in
          let r : str_eq g f ≡ true = rw q (eq_refl g) in
          files-absent m b g (subst (λ x. IsAbsent x m) q n) ∙ if_true _ _ r ∙ sym (if_true _ _ u)
      | inr u ↦
          let ne : g ≢ f = λ q. absurd (cc (u, ap (λ x. str_eq f x) q, eq_refl f)) in
          files-lines m b g h (if_false _ _ (str_eq-ne g f ne) ∙ e) ∙ sym (if_false _ _ u)
    ]

functions-lines :
    (fs : List String) (a : Adapter) (g : String)
    → (execute_all (function_commands fs ++ (Request.configuration_done ∷ [])) a).lines g
      ≡ a.lines g
functions-lines [] a g = refl
functions-lines (f ∷ fs) a g = refl

functions-functions :
    (fs : List String) (a : Adapter)
    → a.functions ≡ []
    → (execute_all (function_commands fs ++ (Request.configuration_done ∷ [])) a).functions ≡ fs
functions-functions [] a e = e
functions-functions (f ∷ fs) a e = refl

-- Refinement: an adapter that has just been started and carries out what a successful
-- `reinitialize` has sent holds, for every file, the session's stored lines, and the session's
-- stored functions. The map needs to have one entry for a file, which `breakpoint` keeps.
pub reinitialize-restores :
    (env : Env) (b : Backend) (args : Fields) (s : Session)
    → s.backend ≡ some b
    → attach_args b (pos 0) ≡ built args
    → IsMap s.breakpoints
    → (reinitialize env s).0 ≡ ok tt
    → (cs : List Command) × (commands (reinitialize env s).1 ≡ commands s ++ cs)
      × ((g : String) → (execute_all cs fresh).lines g ≡ lines_of g s.breakpoints)
      × ((execute_all cs fresh).functions ≡ s.function_breakpoints)
reinitialize-restores env b args s h e v k =
    let w = (reinitialize-ok env b args s h e k).0 in
    let m = s.breakpoints in
    let fs = s.function_breakpoints in
    let last = function_commands fs ++ (Request.configuration_done ∷ []) in
    let q = execute_all-append (file_commands m) last fresh in
    let a = execute_all (file_commands m) fresh in
    (
      reinit_commands b args m fs,
      w,
      λ g. ap (λ x. x.lines g) q ∙ functions-lines fs a g ∙ files-lines m fresh g v refl,
      ap (λ x. x.functions) q ∙ functions-functions fs a (files-functions m fresh),
    )
