-- ===== src/Session/Reinit/Applies.antt =====
-- What a successful `reinitialize` has sent, step by step.
use mcp_dap_server_k8s_forwa.Prelude.{
  ℕ, ◌+◌, pos, ◌≡◌, refl, sym, ap, ◌∙◌, String, List, [], ◌∷◌, ◌++◌, append_assoc, append-nil,
  length, arith, Bool-cases, inl, inr,
}
use mcp_dap_server_k8s_forwa.Backend.{Backend, adapter_id, attach_args, built}
use mcp_dap_server_k8s_forwa.Dap.Message.{Response, Fields}
use mcp_dap_server_k8s_forwa.Dap.Request
use mcp_dap_server_k8s_forwa.Dap.Request.{Command}
use mcp_dap_server_k8s_forwa.Dap.Methods.{
  initialize_request_raw, attach_request_raw, set_breakpoints_request_raw,
  set_function_breakpoints_request_raw, configuration_done_request_raw,
}
use mcp_dap_server_k8s_forwa.Session.{
  Session, Breakpoints, Env, Error, wrapped, reapply_failed, Result, ok, err, Tool, ◌>>=◌, ◌>>◌,
  call, check_success, validated, time_now, await_initialized_or_fail,
}
use mcp_dap_server_k8s_forwa.Session.Steps.{wrap_error-inv, err≢ok, bind-inv}
use mcp_dap_server_k8s_forwa.Session.Calls.{
  commands, Sends, request_raw-Sends, call-Kept, call-commands, validated-Kept, validated-commands,
}
use mcp_dap_server_k8s_forwa.Session.Points.Persist.{SameBooks, Kept-SameBooks}
use mcp_dap_server_k8s_forwa.Session.Reinit.{
  initialize_raw, capabilities_of, either_error, wrap_either, wrapping_either, greet,
  built_attach_args, send_attach, await_initialized, attach_again, reapply_file, reapply_files,
  reapply_functions, finish_configuration, reapply,
}

-- A program that succeeds has written the commands, and has the same breakpoints as before.
abbrev pub Writes {ℓ} : {A : Type ℓ} → List Command → Tool A → Session → Type ℓ
Writes {A = A} cs m s =
    (a : A) → (m s).0 ≡ ok a → (commands (m s).1 ≡ commands s ++ cs) × SameBooks s (m s).1

pub SameBooks-trans : (s t u : Session) → SameBooks s t → SameBooks t u → SameBooks s u
SameBooks-trans s t u (a, b) (c, d) = (c ∙ a, d ∙ b)

-- One after the other.
pub Writes-then {ℓ κ} :
    {A : Type ℓ} {B : Type κ} (cs ds : List Command) (m : Tool A) (f : A → Tool B) (s : Session)
    → Writes cs m s
    → ((a : A) → (m s).0 ≡ ok a → Writes ds (f a) (m s).1)
    → Writes (cs ++ ds) (m >>= f) s
Writes-then cs ds m f s v w b h =
    let (a, e, q) = bind-inv m f s b h in
    let (c, k) = v a e in
    let (d, l) = w a e b (sym (ap (λ r. r.0) q) ∙ h) in
    rw q (
      d ∙ ap (λ xs. xs ++ ds) c ∙ append_assoc (commands s) cs ds,
      SameBooks-trans s (m s).1 (f a (m s).1).1 k l,
    )

pub Writes-none {ℓ} : {A : Type ℓ} (m : Tool A) (s : Session) → (m s).1 ≡ s → Writes [] m s
Writes-none m s e a h = rw e (sym (append-nil (commands s)), (refl, refl))

wrap_either-inv {ℓ} :
    {A : Type ℓ} (f g : Error → Error) (r : Result A) (a : A) → wrap_either f g r ≡ ok a → r ≡ ok a
wrap_either-inv f g (ok b) a h = h
wrap_either-inv f g (err e) a h = err≢ok (either_error f g e) (wrap_either f g (err e)) refl h

Writes-validated_raw :
    (env : Env) (p : String) (cmd : Command) (f g : Error → Error) (m : _) (s : Session)
    → Sends cmd m
    → Writes (cmd ∷ []) (wrapping_either f g (validated env p m)) s
Writes-validated_raw env p cmd f g m s w tt h = (
  validated-commands env p cmd m s w (wrap_either-inv f g (validated env p m s).0 tt h),
  Kept-SameBooks s _ (validated-Kept env p m s),
)

pub capabilities_of-state : (r : Response) (s : Session) → (capabilities_of r s).1 ≡ s
capabilities_of-state r s = ground arith

pub greet-Writes :
    (env : Env) (b : Backend) (s : Session)
    → Writes (Request.initialize (adapter_id b) ∷ []) (greet env b) s
unfolding initialize_raw initialize_request_raw
greet-Writes env b s caps h =
    let m = initialize_request_raw (adapter_id b) in
    let u =
      wrap_error-inv "reinitialize: InitializeRequest failed"
        (initialize_raw env (adapter_id b) s).0 caps h in
    let (r, e, q) = bind-inv (call env m) capabilities_of s caps u in
    let t = (call env m s).1 in
    let v : (greet env b s).1 ≡ t = ap (λ r. r.1) q ∙ capabilities_of-state r t in
    rw v (call-commands env _ m s r (request_raw-Sends _) e, Kept-SameBooks s t (call-Kept env m s))

-- Each file's lines.
abbrev pub file_commands : Breakpoints → List Command
file_commands [] = []
file_commands ((file, lines) ∷ m) = Request.set_breakpoints file lines ∷ file_commands m

reapply_files-Writes :
    (env : Env) (i n : ℕ) (m : Breakpoints) (s : Session)
    → Writes (file_commands m) (reapply_files env i n m) s
unfolding reapply_files set_breakpoints_request_raw
reapply_files-Writes env i n [] s = Writes-none (reapply_files env i n []) s refl
reapply_files-Writes env i n ((file, lines) ∷ m) s =
    Writes-then (Request.set_breakpoints file lines ∷ []) (file_commands m)
      (reapply_file env i n file lines) (λ _. reapply_files env (i + 1) n m) s
      (Writes-validated_raw env _ _ (λ e. reapply_failed file e i n)
        (λ e. reapply_failed file e i n) (set_breakpoints_request_raw file lines) s
        (request_raw-Sends _))
      (λ a e. reapply_files-Writes env (i + 1) n m (reapply_file env i n file lines s).1)

-- The request for the functions: none if there are none.
abbrev pub function_commands : List String → List Command
function_commands [] = []
function_commands (f ∷ fs) = Request.set_function_breakpoints (f ∷ fs) ∷ []

reapply_functions-Writes :
    (env : Env) (fs : List String) (s : Session)
    → Writes (function_commands fs) (reapply_functions env fs) s
unfolding reapply_functions set_function_breakpoints_request_raw
reapply_functions-Writes env [] s = Writes-none (reapply_functions env []) s refl
reapply_functions-Writes env (f ∷ fs) s =
    Writes-validated_raw env _ _ (wrapped "reinitialize: SetFunctionBreakpointsRequest")
      (wrapped "reinitialize: SetFunctionBreakpoints response")
      (set_function_breakpoints_request_raw (f ∷ fs)) s (request_raw-Sends _)

finish_configuration-Writes :
    (env : Env) (s : Session)
    → Writes (Request.configuration_done ∷ []) (finish_configuration env) s
unfolding configuration_done_request_raw
finish_configuration-Writes env s =
    Writes-validated_raw env _ _ (wrapped "reinitialize: ConfigurationDoneRequest")
      (wrapped "reinitialize: ConfigurationDone response") configuration_done_request_raw s
      (request_raw-Sends _)

send_attach-Writes :
    (env : Env) (args : Fields) (s : Session)
    → Writes (Request.attach args ∷ []) (send_attach env args) s
unfolding attach_request_raw
send_attach-Writes env args s r h =
    let m = attach_request_raw args in
    let e =
      wrap_either-inv (wrapped "reinitialize: AttachRequest send failed")
        (wrapped "reinitialize: attach response") (call env m s).0 r h in
    (call-commands env _ m s r (request_raw-Sends _) e, Kept-SameBooks s _ (call-Kept env m s))

pub check_success-state : (p : String) (r : Response) (s : Session) → (check_success p r s).1 ≡ s
check_success-state p r s = elim (Bool-cases r.success) [ inl f ↦ rw f | inr f ↦ rw f ]

abbrev pub after_attach : Env → ℕ → Response → Tool (Unit {0})
after_attach env since r =
    check_success "reinitialize: attach failed" r >> await_initialized env since

pub attach_again-eq :
    (env : Env) (b : Backend) (args : Fields) (s : Session)
    → attach_args b (pos 0) ≡ built args
    → attach_again env b s ≡ (send_attach env args >>= after_attach env (time_now env s)) s
unfolding attach_again
attach_again-eq env b args s e = rw (e, built_attach_args) refl

pub attach_again-Writes :
    (env : Env) (b : Backend) (args : Fields) (s : Session)
    → attach_args b (pos 0) ≡ built args
    → Writes (Request.attach args ∷ []) (attach_again env b) s
unfolding await_initialized_or_fail
attach_again-Writes env b args s e =
    let since = time_now env s in
    let p : String = "reinitialize: attach failed" in
    rw (attach_again-eq env b args s e) (
      Writes-then (Request.attach args ∷ []) [] (send_attach env args) (after_attach env since) s
        (send_attach-Writes env args s)
        (λ r u.
          Writes-then [] [] (check_success p r) (λ _. await_initialized env since) _
            (Writes-none (check_success p r) _ (check_success-state p r _))
            (λ x v.
              Writes-none (await_initialized env since)
                (check_success p r (send_attach env args s).1).1 refl)))

abbrev pub reapply_commands : Breakpoints → List String → List Command
reapply_commands m fs =
    file_commands m ++ (function_commands fs ++ (Request.configuration_done ∷ []))

pub reapply-Writes :
    (env : Env) (m : Breakpoints) (fs : List String) (s : Session)
    → Writes (reapply_commands m fs) (reapply env m fs) s
unfolding reapply
reapply-Writes env m fs s =
    Writes-then _ _ (reapply_files env 0 (length m) m)
      (λ _. reapply_functions env fs >> finish_configuration env) s
      (reapply_files-Writes env 0 (length m) m s)
      (λ a e.
        Writes-then _ _ (reapply_functions env fs) (λ _. finish_configuration env) _
          (reapply_functions-Writes env fs _) (λ b f. finish_configuration-Writes env _))
