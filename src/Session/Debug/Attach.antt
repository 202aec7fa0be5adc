-- ===== src/Session/Debug/Attach.antt =====
-- `debug` on a server that is given: what a successful start has sent.
use mcp_dap_server_k8s_forwa.Prelude.{
  ℕ, ◌≡◌, refl, sym, ap, ◌∙◌, subst, String, List, [], ◌∷◌, ◌++◌, append-nil, ltb, length,
}
use mcp_dap_server_k8s_forwa.Backend.{Backend, adapter_id, attach_args, built}
use mcp_dap_server_k8s_forwa.Backend.Spawn.{spawn}
use mcp_dap_server_k8s_forwa.Dap.Message.{Capabilities, Response, Fields}
use mcp_dap_server_k8s_forwa.Dap.Request
use mcp_dap_server_k8s_forwa.Dap.Request.{Command}
use mcp_dap_server_k8s_forwa.Dap.Methods.{request, initialize_request, configuration_done_request}
use mcp_dap_server_k8s_forwa.Session.{
  Session, Env, Result, ok, Tool, pure, ◌>>=◌, ◌>>◌, lift, modify, call, check_success, time_now,
  await_initialized_or_fail,
}
use mcp_dap_server_k8s_forwa.Session.Steps.{bind-inv, bind-ok}
use mcp_dap_server_k8s_forwa.Session.Calls.{
  commands, request-Sends, call-Kept, call-commands, validated-Kept, validated-commands,
}
use mcp_dap_server_k8s_forwa.Session.Points.Persist.{Kept-SameBooks}
use mcp_dap_server_k8s_forwa.Session.Reinit.{capabilities_of}
use mcp_dap_server_k8s_forwa.Session.Reinit.Applies.{
  Writes, Writes-then, Writes-none, capabilities_of-state, check_success-state,
}
use mcp_dap_server_k8s_forwa.Session.Control.{BreakpointSpec}
use mcp_dap_server_k8s_forwa.Session.Lifecycle.{DebugParams, cleanup, register_session_tools}
use mcp_dap_server_k8s_forwa.Session.Startup.{
  stops_on_entry, start_command, set_initial, complete_configuration, await_startup, begin_session,
  after_start, launch_and_configure,
}
use mcp_dap_server_k8s_forwa.Session.Startup.Unstored.{initial_commands, set_initial-Writes}
use mcp_dap_server_k8s_forwa.Session.Debug.{
  World, Started, attach_ready, check_params, spawn_and_connect, debug_port, run_session,
  first_context, debug, initialize, store_params, launch_at, request_start, after_greeting,
  start_session,
}
use mcp_dap_server_k8s_forwa.Session.Debug.Refused.{check_params-state}
use mcp_dap_server_k8s_forwa.Session.Debug.Dialled.{connect_spawned-Fresh}

call-Writes :
    (env : Env) (cmd : Command) (s : Session) → Writes (cmd ∷ []) (call env (request cmd)) s
call-Writes env cmd s r e = (
  call-commands env cmd (request cmd) s r (request-Sends cmd) e,
  Kept-SameBooks s _ (call-Kept env (request cmd) s),
)

initialize-Writes :
    (env : Env) (id : String) (s : Session)
    → Writes (Request.initialize id ∷ []) (initialize env id) s
unfolding initialize initialize_request
initialize-Writes env id s =
    let m = call env (request (Request.initialize id)) in
    Writes-then (Request.initialize id ∷ []) [] m capabilities_of s
      (call-Writes env (Request.initialize id) s)
      (λ r e. Writes-none (capabilities_of r) (m s).1 (capabilities_of-state r (m s).1))

-- The requests behind the one that starts the session.
abbrev pub configuration_commands : List BreakpointSpec → List Command
configuration_commands bps = initial_commands bps ++ (Request.configuration_done ∷ [])

complete_configuration-Writes :
    (env : Env) (s : Session)
    → Writes (Request.configuration_done ∷ []) (complete_configuration env) s
unfolding configuration_done_request
complete_configuration-Writes env s tt h =
    let p : String = "unable to complete configuration" in
    let m = request Request.configuration_done in
    (
      validated-commands env p Request.configuration_done m s
          (request-Sends Request.configuration_done) h,
      Kept-SameBooks s _ (validated-Kept env p m s),
    )

begin_session-Writes : (env : Env) (s : Session) → Writes [] (modify (begin_session env)) s
unfolding begin_session register_session_tools
begin_session-Writes env s a e = (sym (append-nil (commands s)), (refl, refl))

after_start-Writes :
    (env : Env) (since : ℕ) (bps : List BreakpointSpec) (r : Response) (s : Session)
    → Writes (configuration_commands bps) (after_start env since bps r) s
unfolding await_initialized_or_fail
after_start-Writes env since bps r s =
    let p : String = "unable to start debug session" in
    let finish : Tool (Unit {0}) = complete_configuration env >> modify (begin_session env) in
    let configure : Tool (Unit {0}) = set_initial env bps >> finish in
    let start : Tool (Unit {0}) = await_startup env since >> configure in
    Writes-then [] (configuration_commands bps) (check_success p r) (λ _. start) s
      (Writes-none (check_success p r) s (check_success-state p r s))
      (λ a e.
        let t = (check_success p r s).1 in
        Writes-then [] (configuration_commands bps) (await_startup env since) (λ _. configure) t
          (Writes-none (await_startup env since) t refl)
          (λ a e.
            Writes-then (initial_commands bps) (Request.configuration_done ∷ [])
              (set_initial env bps) (λ _. finish) t (set_initial-Writes env bps t)
              (λ a e.
                let u = (set_initial env bps t).1 in
                Writes-then (Request.configuration_done ∷ []) [] (complete_configuration env)
                  (λ _. modify (begin_session env)) u (complete_configuration-Writes env u)
                  (λ a e. begin_session-Writes env (complete_configuration env u).1))))

launch_and_configure-Writes :
    (env : Env) (cmd : Command) (bps : List BreakpointSpec) (s : Session)
    → Writes (cmd ∷ configuration_commands bps) (launch_and_configure env cmd bps) s
unfolding launch_and_configure
launch_and_configure-Writes env cmd bps s =
    Writes-then (cmd ∷ []) (configuration_commands bps) (call env (request cmd))
      (after_start env (time_now env s) bps) s (call-Writes env cmd s)
      (λ r e. after_start-Writes env (time_now env s) bps r (call env (request cmd) s).1)

-- A last step that writes nothing.
Writes-last {ℓ κ} :
    {A : Type ℓ} {B : Type κ} (cs : List Command) (m : Tool A) (f : A → Tool B) (s : Session)
    → Writes cs m s
    → ((a : A) → (m s).0 ≡ ok a → Writes [] (f a) (m s).1)
    → Writes cs (m >>= f) s
Writes-last cs m f s v w =
    subst (λ ds. Writes ds (m >>= f) s) (append-nil cs) (Writes-then cs [] m f s v w)

launch_at-Writes :
    (w : World) (p : DebugParams) (since : ℕ) (cmd : Command) (s : Session)
    → Writes (cmd ∷ configuration_commands p.breakpoints) (launch_at w p since cmd) s
launch_at-Writes w p since cmd s =
    let m = launch_and_configure w.env cmd p.breakpoints in
    Writes-last (cmd ∷ configuration_commands p.breakpoints) m (λ _. pure since) s
      (launch_and_configure-Writes w.env cmd p.breakpoints s)
      (λ a e. Writes-none (pure since) (m s).1 refl)

request_start-Writes :
    (w : World) (b : Backend) (mode : String) (p : DebugParams) (cmd : Command) (s : Session)
    → start_command w.cwd b mode p (stops_on_entry p.stop_on_entry p.breakpoints) ≡ ok cmd
    → Writes (cmd ∷ configuration_commands p.breakpoints) (request_start w b mode p) s
request_start-Writes w b mode p cmd s h =
    subst
      (λ r.
        Writes (cmd ∷ configuration_commands p.breakpoints)
          (lift r >>= launch_at w p (time_now w.env s)) s)
      (sym h) (launch_at-Writes w p (time_now w.env s) cmd s)

after_greeting-Writes :
    (w : World) (b : Backend) (mode : String) (p : DebugParams) (cmd : Command)
    (caps : Capabilities) (s : Session)
    → start_command w.cwd b mode p (stops_on_entry p.stop_on_entry p.breakpoints) ≡ ok cmd
    → Writes (cmd ∷ configuration_commands p.breakpoints) (after_greeting w b mode p caps) s
after_greeting-Writes w b mode p cmd caps s h =
    request_start-Writes w b mode p cmd (store_params mode p (record s { capabilities = caps })) h

start_session-Writes :
    (w : World) (b : Backend) (mode : String) (p : DebugParams) (cmd : Command) (s : Session)
    → start_command w.cwd b mode p (stops_on_entry p.stop_on_entry p.breakpoints) ≡ ok cmd
    → Writes
        (Request.initialize (adapter_id b) ∷ cmd ∷ configuration_commands p.breakpoints)
        (start_session w b mode p)
        s
unfolding start_session
start_session-Writes w b mode p cmd s h =
    Writes-then (Request.initialize (adapter_id b) ∷ [])
      (cmd ∷ configuration_commands p.breakpoints) (initialize w.env (adapter_id b))
      (after_greeting w b mode p) s (initialize-Writes w.env (adapter_id b) s)
      (λ caps e. after_greeting-Writes w b mode p cmd caps (initialize w.env (adapter_id b) s).1 h)

abbrev pub started_commands : Backend → Fields → DebugParams → List Command
started_commands b args p =
    Request.initialize (adapter_id b) ∷ Request.attach args ∷ configuration_commands p.breakpoints

-- When `debug` succeeds in the mode `attach`, on any backend, it has sent on its new connection exactly: the
-- greeting, the backend's attach request, one request for each initial breakpoint that names a function or a
-- line, and `configurationDone`. It waits for no stop, and says whether it was given breakpoints. The stored
-- breakpoints of the old session are still there, though none of them was sent.
pub debug-attaches :
    (w : World) (p : DebugParams) (s : Session) (b : Backend) (args : Fields) (t : Started)
    → (check_params w p (cleanup s)).0 ≡ ok ("attach", b)
    → attach_args b p.process_id ≡ built args
    → (debug w p s).0 ≡ ok t
    → let r = (debug w p s).1 in
      (t ≡ attach_ready (ltb 0 (length p.breakpoints)))
      × (commands r ≡ started_commands b args p)
      × (r.breakpoints ≡ s.breakpoints)
      × (r.function_breakpoints ≡ s.function_breakpoints)
unfolding debug spawn_and_connect cleanup first_context start_command
debug-attaches w p s b args t h a k =
    let c = (check_params w p (cleanup s)).1 in
    let q = bind-ok (check_params w p) (run_session w p) (cleanup s) ("attach", b) h in
    let l : ◌≡◌ {A = Result Started} (run_session w p ("attach", b) c).0 (ok t) =
      sym (ap (λ x. x.0) q) ∙ k in
    let go : Tool Started = start_session w b "attach" p >>= first_context w "attach" p in
    let (x, e, f) = bind-inv (spawn_and_connect w b p) (λ _. go) c t l in
    let d = (spawn_and_connect w b p c).1 in
    let (since, g, i) =
      bind-inv (start_session w b "attach" p) (first_context w "attach" p) d t
        (sym (ap (λ x. x.0) f) ∙ l) in
    let u = (start_session w b "attach" p d).1 in
    let ready = attach_ready (ltb 0 (length p.breakpoints)) in
    let z : debug w p s ≡ (ok ready, u) = q ∙ (f ∙ i) in
    let (cw, (bw, fw)) =
      start_session-Writes w b "attach" p (Request.attach args) d (rw a refl) since g in
    let (cd, (bd, fd)) = connect_spawned-Fresh w b (spawn w.host b (debug_port p.port)).0 c e in
    let v : ok ready ≡ ok t = sym (ap (λ x. x.0) z) ∙ k in
    let books =
      check_params-state (λ y. y.breakpoints ≡ s.breakpoints) w p (cleanup s) refl (λ b. refl) in
    let functions =
      check_params-state (λ y. y.function_breakpoints ≡ s.function_breakpoints) w p (cleanup s) refl
        (λ b. refl) in
    let y : ready ≡ t = cc v in
    (
      sym y,
      ap (λ x. commands x.1) z ∙ (cw ∙ ap (λ cs. cs ++ started_commands b args p) cd),
      ap (λ x. x.1.breakpoints) z ∙ (bw ∙ (bd ∙ books)),
      ap (λ x. x.1.function_breakpoints) z ∙ (fw ∙ (fd ∙ functions)),
    )
