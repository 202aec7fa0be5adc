-- ===== src/Session/Debug/Accepted.antt =====
-- What the checks of `debug` let through, the backend can start.
use mcp_dap_server_k8s_forwa.Prelude.{
  ◌≡◌, refl, sym, ap, ◌∙◌, subst, String, Bool, true, false, [], ◌∷◌, Option, none, some, ◌⊎◌, inl,
  inr, if_true, if_false, Bool-cases, str_eq, eq_iff, any, ◌||◌, if_keeps,
}
use mcp_dap_server_k8s_forwa.Backend.{
  Backend, delve, gdb, connect, no_source_mode, launch_args, core_args, attach_args,
}
use mcp_dap_server_k8s_forwa.Dap.Request.{Command}
use mcp_dap_server_k8s_forwa.Session.{
  Session, Error, backend_refused, naming, said, Result, ok, err, lift,
}
use mcp_dap_server_k8s_forwa.Session.Steps.{bind-inv, err≢ok}
use mcp_dap_server_k8s_forwa.Session.Lifecycle.{
  DebugParams, connects, debug_mode, check_required, select_backend,
}
use mcp_dap_server_k8s_forwa.Session.Startup.{start_command}
use mcp_dap_server_k8s_forwa.Session.Debug.{
  World, required, choose, check_mode, keep_choice, check_params,
}

data IsMode : String → Type 0 where
  source : IsMode "source"
  binary : IsMode "binary"
  core : IsMode "core"
  attach : IsMode "attach"

data IsLocal : Backend → Type 0 where
  local_delve : IsLocal delve
  local_gdb : (path : String) → IsLocal (gdb path)

-- The request that starts the session, or the one refusal that is left.
abbrev pub Startable : World → DebugParams → Bool → String → Backend → Type 0
Startable w p stops mode b =
    ((c : Command) × (start_command w.cwd b mode p stops ≡ ok c))
    ⊎ ((path : String) × (b ≡ gdb path)
        × (mode ≡ "source")
        × (start_command w.cwd b mode p stops ≡ err (backend_refused no_source_mode)))

IsLocal-Startable :
    (w : World) (p : DebugParams) (stops : Bool) {mode : String} {b : Backend}
    → IsLocal b
    → IsMode mode
    → Startable w p stops mode b
unfolding start_command launch_args core_args attach_args
IsLocal-Startable w p stops local_delve source = inl (_, refl)
IsLocal-Startable w p stops local_delve binary = inl (_, refl)
IsLocal-Startable w p stops local_delve core = inl (_, refl)
IsLocal-Startable w p stops local_delve attach = inl (_, refl)
IsLocal-Startable w p stops (local_gdb path) source = inr (path, refl, refl, refl)
IsLocal-Startable w p stops (local_gdb path) binary = inl (_, refl)
IsLocal-Startable w p stops (local_gdb path) core = inl (_, refl)
IsLocal-Startable w p stops (local_gdb path) attach = inl (_, refl)

connect-Startable :
    (w : World) (p : DebugParams) (stops : Bool) (mode : String) (b : Backend)
    → connects (some b) ≡ true
    → mode ≡ "attach"
    → Startable w p stops mode b
unfolding start_command attach_args
connect-Startable w p stops mode delve h e = absurd (cc h)
connect-Startable w p stops mode (gdb path) h e = absurd (cc h)
connect-Startable w p stops mode (connect addr timeout) h e = rw e (inl (_, refl))

any-IsMode :
    (m : String)
    → any (λ k. str_eq k m) ("source" ∷ "binary" ∷ "core" ∷ "attach" ∷ []) ≡ true
    → IsMode m
any-IsMode m h = elim (Bool-cases (str_eq "source" m)) [
  | inl e ↦ subst IsMode ((eq_iff "source" m).0 e) source
  | inr e ↦ elim (Bool-cases (str_eq "binary" m)) [
    | inl f ↦ subst IsMode ((eq_iff "binary" m).0 f) binary
    | inr f ↦ elim (Bool-cases (str_eq "core" m)) [
      | inl g ↦ subst IsMode ((eq_iff "core" m).0 g) core
      | inr g ↦ elim (Bool-cases (str_eq "attach" m)) [
        | inl k ↦ subst IsMode ((eq_iff "attach" m).0 k) attach
        | inr k ↦ let u : false ≡ true = rw (e, f, g, k) at h in absurd (cc u)
      ]
    ]
  ]
]

debug_mode-local : (p : DebugParams) (mode : String) → debug_mode false p ≡ ok mode → IsMode mode
unfolding debug_mode
debug_mode-local p mode h =
    elim (Bool-cases (any (λ k. str_eq k p.mode) ("source" ∷ "binary" ∷ "core" ∷ "attach" ∷ []))) [
      | inl e ↦
          let u : ok p.mode ≡ ok mode = sym (if_true _ _ e) ∙ h in
          let v : p.mode ≡ mode = cc u in subst IsMode v (any-IsMode p.mode e)
      | inr e ↦ err≢ok (naming "invalid mode" p.mode) (debug_mode false p) (if_false _ _ e) h
    ]

data AllLocal : Result Backend → Type 0 where
  local : {b : Backend} → IsLocal b → AllLocal (ok b)
  refused : (e : Error) → AllLocal (err e)

select_backend-AllLocal :
    (found : Option String) (p : DebugParams) → AllLocal (select_backend found none p)
unfolding select_backend
select_backend-AllLocal none p =
    if_keeps AllLocal (str_eq p.debugger "" || str_eq p.debugger "delve") _ _ (local local_delve) (
      if_keeps AllLocal (str_eq p.debugger "gdb") _ _
        (if_keeps AllLocal (str_eq p.gdb_path "") _ _ (refused (said "GDB not found in PATH"))
          (local (local_gdb p.gdb_path)))
        (refused (naming "unsupported debugger" p.debugger)))
select_backend-AllLocal (some path) p =
    if_keeps AllLocal (str_eq p.debugger "" || str_eq p.debugger "delve") _ _ (local local_delve) (
      if_keeps AllLocal (str_eq p.debugger "gdb") _ _
        (if_keeps AllLocal (str_eq p.gdb_path "") _ _ (local (local_gdb path))
          (local (local_gdb p.gdb_path)))
        (refused (naming "unsupported debugger" p.debugger)))

AllLocal-ok : (r : Result Backend) (b : Backend) → AllLocal r → r ≡ ok b → IsLocal b
AllLocal-ok (ok c) b (local l) h = let u : c ≡ b = cc h in subst IsLocal u l
AllLocal-ok (err e) b (refused x) h = err≢ok e (err e) refl h

-- Without a connection that is given, the backend is chosen anew.
select_backend-IsLocal :
    (found : Option String) (o : Option Backend) (p : DebugParams) (b : Backend)
    → connects o ≡ false
    → select_backend found o p ≡ ok b
    → IsLocal b
unfolding select_backend
select_backend-IsLocal found none p b c h =
    AllLocal-ok (select_backend found none p) b (select_backend-AllLocal found p) h
select_backend-IsLocal found (some delve) p b c h =
    AllLocal-ok (select_backend found none p) b (select_backend-AllLocal found p) h
select_backend-IsLocal found (some (gdb path)) p b c h =
    AllLocal-ok (select_backend found none p) b (select_backend-AllLocal found p) h
select_backend-IsLocal found (some (connect addr timeout)) p b c h = absurd (cc c)

select_backend-connects :
    (found : Option String) (o : Option Backend) (p : DebugParams) (b : Backend)
    → connects o ≡ true
    → select_backend found o p ≡ ok b
    → connects (some b) ≡ true
unfolding select_backend
select_backend-connects found none p b c h = absurd (cc c)
select_backend-connects found (some delve) p b c h = absurd (cc c)
select_backend-connects found (some (gdb path)) p b c h = absurd (cc c)
select_backend-connects found (some (connect addr timeout)) p b c h =
    let u : connect addr timeout ≡ b = cc h in ap (λ x. connects (some x)) (sym u)

debug_mode-connected :
    (p : DebugParams) (mode : String) → debug_mode true p ≡ ok mode → mode ≡ "attach"
unfolding debug_mode
debug_mode-connected p mode h = let u : "attach" ≡ mode = cc h in sym u

-- The choice as the checks make it.
chosen :
    (w : World) (p : DebugParams) (s : Session) (mode : String) (b : Backend)
    → (check_params w p s).0 ≡ ok (mode, b)
    → (debug_mode (connects s.backend) p ≡ ok mode)
      × (select_backend w.gdb_found s.backend p ≡ ok b)
unfolding check_params
chosen w p s mode b h =
    let (m, e, q) =
      bind-inv (lift (debug_mode (connects s.backend) p)) (check_mode w p s.backend) s (mode, b)
        h in
    let (x, f, r) =
      bind-inv (required (check_required (connects s.backend) m p)) (λ _. choose w p s.backend m) s
        (mode, b) (sym (ap (λ t. t.0) q) ∙ h) in
    let (c, g, v) =
      bind-inv (lift (select_backend w.gdb_found s.backend p)) (keep_choice m)
        (required (check_required (connects s.backend) m p) s).1 (mode, b)
        (sym (ap (λ t. t.0) r) ∙ (sym (ap (λ t. t.0) q) ∙ h)) in
    let u : ok (m, c) ≡ ok (mode, b) =
      sym (ap (λ t. t.0) v) ∙ (sym (ap (λ t. t.0) r) ∙ (sym (ap (λ t. t.0) q) ∙ h)) in
    let n : ◌≡◌ {A = String × Backend} (m, c) (mode, b) = cc u in
    (e ∙ ap (λ z. ok z.0) n, g ∙ ap (λ z. ok z.1) n)

choice-Startable :
    (w : World) (p : DebugParams) (s : Session) (stops : Bool) (mode : String) (b : Backend)
    (c : Bool)
    → connects s.backend ≡ c
    → debug_mode c p ≡ ok mode
    → select_backend w.gdb_found s.backend p ≡ ok b
    → Startable w p stops mode b
choice-Startable w p s stops mode b true c h k =
    connect-Startable w p stops mode b (select_backend-connects w.gdb_found s.backend p b c k)
      (debug_mode-connected p mode h)
choice-Startable w p s stops mode b false c h k =
    IsLocal-Startable w p stops (select_backend-IsLocal w.gdb_found s.backend p b c k)
      (debug_mode-local p mode h)

-- When the checks of `debug` pass, the backend that they chose builds the request that starts a session
-- of the mode that they chose, whatever the parameters and the old session were. There is one exception:
-- `source` on GDB passes the checks, and is refused only when the adapter runs already.
pub check_params-Startable :
    (w : World) (p : DebugParams) (s : Session) (stops : Bool) (mode : String) (b : Backend)
    → (check_params w p s).0 ≡ ok (mode, b)
    → Startable w p stops mode b
check_params-Startable w p s stops mode b h =
    let (m, k) = chosen w p s mode b h in
    choice-Startable w p s stops mode b (connects s.backend) refl m k
