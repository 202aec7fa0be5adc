-- ===== src/Session/Reinit/Liveness.antt =====
-- `reinitialize` comes through, also on a connection that is stale.
use mcp_dap_server_k8s_forwa.Prelude.{
  ℕ, ◌+◌, pos, ◌≡◌, refl, sym, ap, ◌∙◌, String, List, [], ◌∷◌, none, some, true, length,
}
use mcp_dap_server_k8s_forwa.Backend.{Backend, adapter_id, attach_args, built}
use mcp_dap_server_k8s_forwa.Dap.Message.{Response, Fields, Capabilities, initialize_body}
use mcp_dap_server_k8s_forwa.Dap.Request
use mcp_dap_server_k8s_forwa.Dap.Request.{Command}
use mcp_dap_server_k8s_forwa.Dap.Client.{Client, new_request, raw_send, send_and_register_raw}
use mcp_dap_server_k8s_forwa.Dap.Methods.{
  request_raw, initialize_request_raw, attach_request_raw, set_breakpoints_request_raw,
  set_function_breakpoints_request_raw, configuration_done_request_raw,
}
use mcp_dap_server_k8s_forwa.Session.{
  Session, Breakpoints, Env, Error, answered, ok, Tool, ◌>>=◌, ◌>>◌, get, modify, reapply_failed,
  wrapped, call, check_success, validated, time_now, await_initialized_or_fail,
  await_initialized_on, waited_result, wrap_error,
}
use mcp_dap_server_k8s_forwa.Dap.Waits.First.{Greets, await_initialized_event-happened}
use mcp_dap_server_k8s_forwa.Session.Steps.{bind-ok}
use mcp_dap_server_k8s_forwa.Session.Reinit.{
  initialize_raw, capabilities_of, greet, put_capabilities, send_attach, await_initialized,
  attach_again, reapply_file, reapply_files, reapply_functions, finish_configuration,
  forget_position, reapply, handshake, reinitialize_with, reinitialize, wrap_either,
  wrapping_either,
}
use mcp_dap_server_k8s_forwa.Session.Reinit.Applies.{after_attach, attach_again-eq}

abbrev HasClient : Session → Type 0
HasClient s = (c : Client) × (s.client ≡ some c)

abbrev Done {ℓ} : {A : Type ℓ} → Tool A → Session → Type ℓ
Done {A = A} m s = (a : A) × ((m s).0 ≡ ok a) × HasClient (m s).1

Done-then {ℓ κ} :
    {A : Type ℓ} {B : Type κ} (m : Tool A) (f : A → Tool B) (s : Session)
    → Done m s
    → ((a : A) → (m s).0 ≡ ok a → HasClient (m s).1 → Done (f a) (m s).1)
    → Done (m >>= f) s
Done-then m f s (a, e, k) w = rw (bind-ok m f s a e) (w a e k)

-- The raw requests ask for no flag of the connection.
call_raw-eq :
    (env : Env) (cmd : Command) (s : Session) (c : Client) (r : Response)
    → s.client ≡ some c
    → env.written c.seq ≡ none
    → env.answer c.seq ≡ answered r
    → ((call env (request_raw cmd) s).0 ≡ ok r) × HasClient (call env (request_raw cmd) s).1
unfolding call request_raw new_request send_and_register_raw raw_send
call_raw-eq env cmd s c r e w a = rw (e, call, w, a) (refl, (_, refl))

check-Done :
    (p : String) (r : Response) (s : Session)
    → r.success ≡ true
    → HasClient s
    → Done (check_success p r) s
check-Done p r s g k = rw g (tt, refl, k)

capabilities-Done :
    (r : Response) (caps : Capabilities) (s : Session)
    → r.success ≡ true
    → r.body ≡ initialize_body caps
    → HasClient s
    → Done (capabilities_of r) s
capabilities-Done r caps s g h k = rw (g, h) (caps, refl, k)

-- Every write succeeds, and every request is answered with success.
module _ (env : Env) (w : (n : ℕ) → env.written n ≡ none)
    (a : (n : ℕ) → (r : Response) × (env.answer n ≡ answered r) × (r.success ≡ true)) where
  call_raw-Done :
      (cmd : Command) (s : Session)
      → HasClient s
      → (r : Response) × ((call env (request_raw cmd) s).0 ≡ ok r)
        × (r.success ≡ true)
        × HasClient (call env (request_raw cmd) s).1
  call_raw-Done cmd s (c, e) =
      let (r, f, g) = a c.seq in
      let (x, k) = call_raw-eq env cmd s c r e (w c.seq) f in (r, x, g, k)

  validated_raw-Done :
      (p : String) (cmd : Command) (s : Session)
      → HasClient s
      → Done (validated env p (request_raw cmd)) s
  unfolding validated
  validated_raw-Done p cmd s k =
      let (r, x, g, l) = call_raw-Done cmd s k in
      Done-then (call env (request_raw cmd)) (check_success p) s (r, x, l)
        (λ r' q l'.
          let u : ok r ≡ ok r' = sym x ∙ q in
          let v : r ≡ r' = cc u in check-Done p r' _ (ap (λ z. z.success) (sym v) ∙ g) l')

  wrapped-Done :
      (f g : Error → Error) (p : String) (cmd : Command) (s : Session)
      → HasClient s
      → Done (wrapping_either f g (validated env p (request_raw cmd))) s
  wrapped-Done f g p cmd s k =
      let (x, e, l) = validated_raw-Done p cmd s k in (x, ap (wrap_either f g) e, l)

  reapply_files-Done :
      (i n : ℕ) (m : Breakpoints) (s : Session) → HasClient s → Done (reapply_files env i n m) s
  unfolding reapply_files set_breakpoints_request_raw
  reapply_files-Done i n [] s k = (tt, refl, k)
  reapply_files-Done i n ((file, lines) ∷ m) s k =
      Done-then (reapply_file env i n file lines) (λ _. reapply_files env (i + 1) n m) s
        (wrapped-Done (λ e. reapply_failed file e i n) (λ e. reapply_failed file e i n)
          "reinitialize SetBreakpoints" (Request.set_breakpoints file lines) s k)
        (λ x e l. reapply_files-Done (i + 1) n m (reapply_file env i n file lines s).1 l)

  reapply_functions-Done :
      (fs : List String) (s : Session) → HasClient s → Done (reapply_functions env fs) s
  unfolding reapply_functions set_function_breakpoints_request_raw
  reapply_functions-Done [] s k = (tt, refl, k)
  reapply_functions-Done (f ∷ fs) s k =
      wrapped-Done (wrapped "reinitialize: SetFunctionBreakpointsRequest")
        (wrapped "reinitialize: SetFunctionBreakpoints response")
        "reinitialize SetFunctionBreakpoints" (Request.set_function_breakpoints (f ∷ fs)) s k

  reapply-Done :
      (m : Breakpoints) (fs : List String) (s : Session) → HasClient s → Done (reapply env m fs) s
  unfolding reapply configuration_done_request_raw
  reapply-Done m fs s k =
      Done-then (reapply_files env 0 (length m) m)
        (λ _. reapply_functions env fs >> finish_configuration env) s
        (reapply_files-Done 0 (length m) m s k)
        (λ x e l.
          Done-then (reapply_functions env fs) (λ _. finish_configuration env) _
            (reapply_functions-Done fs _ l)
            (λ y q j.
              wrapped-Done (wrapped "reinitialize: ConfigurationDoneRequest")
                (wrapped "reinitialize: ConfigurationDone response")
                "reinitialize ConfigurationDone" Request.configuration_done _ j))

  module _ (i : (n : ℕ) → Greets (env.wait n)) where
    await-Done : (since : ℕ) (s : Session) → HasClient s → Done (await_initialized env since) s
    unfolding await_initialized_or_fail
    await-Done since s (c, e) = (
      tt,
      ap (λ r. wrap_error "reinitialize: waiting for InitializedEvent" (waited_result r))
          (ap (await_initialized_on env since) e
            ∙ await_initialized_event-happened since (env.wait c.seq) c.bus (i c.seq)),
      (c, e),
    )

    attach_again-Done :
        (b : Backend) (args : Fields) (s : Session)
        → attach_args b (pos 0) ≡ built args
        → HasClient s
        → Done (attach_again env b) s
    unfolding attach_request_raw
    attach_again-Done b args s e k =
        let since = time_now env s in
        let sent : String = "reinitialize: AttachRequest send failed" in
        let received : String = "reinitialize: attach response" in
        let p : String = "reinitialize: attach failed" in
        let (r, x, g, l) = call_raw-Done (Request.attach args) s k in
        let y = ap (wrap_either (wrapped sent) (wrapped received)) x in
        rw (attach_again-eq env b args s e) (
          Done-then (send_attach env args) (after_attach env since) s (r, y, l)
            (λ r' q l'.
              let u : ok r ≡ ok r' = sym y ∙ q in
              let v : r ≡ r' = cc u in
              Done-then (check_success p r') (λ _. await_initialized env since) _
                (check-Done p r' _ (ap (λ z. z.success) (sym v) ∙ g) l')
                (λ z f j. await-Done since _ j)))

    -- The answer to the first request carries the capabilities of the adapter.
    greet-Done :
        (b : Backend) (s : Session) (c : Client) (r : Response) (caps : Capabilities)
        → s.client ≡ some c
        → env.answer c.seq ≡ answered r
        → r.success ≡ true
        → r.body ≡ initialize_body caps
        → Done (greet env b) s
    unfolding initialize_raw initialize_request_raw
    greet-Done b s c r caps e q g h =
        let (x, k) = call_raw-eq env (Request.initialize (adapter_id b)) s c r e (w c.seq) q in
        let m = call env (request_raw (Request.initialize (adapter_id b))) in
        let (y, f, l) =
          Done-then m capabilities_of s (r, x, k)
            (λ r' u l.
              let p : ok r ≡ ok r' = sym x ∙ u in
              let v : r ≡ r' = cc p in
              capabilities-Done r' caps (m s).1 (ap (λ z. z.success) (sym v) ∙ g)
                (ap (λ z. z.body) (sym v) ∙ h) l) in
        (y, ap (wrap_error "reinitialize: InitializeRequest failed") f, l)

    handshake-Done :
        (b : Backend) (args : Fields) (s : Session) (c : Client) (r : Response)
        (caps : Capabilities)
        → attach_args b (pos 0) ≡ built args
        → s.client ≡ some c
        → env.answer c.seq ≡ answered r
        → r.success ≡ true
        → r.body ≡ initialize_body caps
        → Done (handshake env b) s
    unfolding handshake
    handshake-Done b args s c r caps a e q g h =
        let rest : Capabilities → Tool (Unit {0}) = λ caps.
          put_capabilities caps
          >> (attach_again env b
              >> (get >>= λ t. reapply env t.breakpoints t.function_breakpoints)) in
        Done-then (greet env b) rest s (greet-Done b s c r caps e q g h) (λ x f k.
          let t : Session = record (greet env b s).1 { capabilities = x } in
          Done-then (attach_again env b)
            (λ _. get >>= λ t. reapply env t.breakpoints t.function_breakpoints) t
            (attach_again-Done b args t a k) (λ y p l. reapply-Done _ _ _ l))

-- `reinitialize` succeeds, whether the connection is marked stale or not, when there are a client
-- and a backend that gives its attach arguments, every write goes through, every request is
-- answered with success, the first of them with the capabilities of the adapter, and in every wait
-- an `initialized` event comes and the `select` prefers its case.
pub reinitialize-succeeds :
    (env : Env) (b : Backend) (args : Fields) (s : Session) (c : Client) (caps : Capabilities)
    → s.client ≡ some c
    → s.backend ≡ some b
    → attach_args b (pos 0) ≡ built args
    → ((n : ℕ) → env.written n ≡ none)
    → (a : (n : ℕ) → (r : Response) × (env.answer n ≡ answered r) × (r.success ≡ true))
    → (a c.seq).0.body ≡ initialize_body caps
    → ((n : ℕ) → Greets (env.wait n))
    → (reinitialize env s).0 ≡ ok tt
unfolding reinitialize reinitialize_with
reinitialize-succeeds env b args s c caps e h k w a g i =
    let (r, f, u) = a c.seq in
    let (x, y, z) = handshake-Done env w a i b args s c r caps k e f u g in
    let (tt, p, q) =
      Done-then (handshake env b) (λ _. modify forget_position) s (x, y, z)
        (λ x' y' z'. (tt, refl, z')) in
    ap (λ o. (reinitialize_with env o s.backend s).0) e
    ∙ ap (λ o. (reinitialize_with env (some c) o s).0) h
    ∙ p
