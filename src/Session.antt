-- ===== src/Session.antt =====
-- tools.go: `debuggerSession`, and the exchanges of which its tools consist. A tool is a program in
-- a small monad: it changes the session and ends in a value or an error.
pub mod Points
pub mod Reinit
pub mod Lifecycle
pub mod Control
pub mod Query
pub mod Reconnecting
pub mod Startup
pub mod Debug
pub mod Steps
pub mod Calls
use mcp_dap_server_k8s_forwa.Prelude.{
  ℕ, ℤ, pos, negsuc, String, Bool, true, false, List, [], ◌∷◌, Option, none, some, if◌then◌else◌,
  eqb_ℤ, ◌≡◌, ◌⊎◌, inl, inr, refl,
}
use mcp_dap_server_k8s_forwa.Backend.{Backend, BackendError}
use mcp_dap_server_k8s_forwa.Dap.Message.{Capabilities, no_capabilities, Response, Body}
use mcp_dap_server_k8s_forwa.Dap.Registry
use mcp_dap_server_k8s_forwa.Dap.Client.{
  Client, SendError, with_registry, mark_stale, close_registry,
}
use mcp_dap_server_k8s_forwa.Dap.Waits
use mcp_dap_server_k8s_forwa.Dap.Waits.{Wait}
pub use mcp_dap_server_k8s_forwa.Dap.Waits.{
  CtxError, deadline_exceeded, canceled, Waited, happened, lost, closed, gave_up,
}
use mcp_dap_server_k8s_forwa.Dap.Methods.{Sent}

-- A map from files to the lines of their breakpoints: Go may visit its entries in any order.
abbrev pub Breakpoints : Type 0
Breakpoints = List (String × List ℤ)

-- `cmd` is a process, `tools` are the names that the MCP server offers, times are instants of the
-- clock with 0 for `time.Time{}`.
pub record Session : Type 0 where
  pub cmd : Option ℕ
  pub client : Option Client
  pub backend : Option Backend
  pub capabilities : Capabilities
  pub launch_mode : String
  pub program_path : String
  pub program_args : List String
  pub core_file_path : String
  pub stopped_thread_id : ℤ
  pub last_frame_id : ℤ
  pub last_stop_at : ℕ
  pub breakpoints : Breakpoints
  pub function_breakpoints : List String
  pub tools : List String

-- `said m` is an error with the text `m`, `failed p m` is `p: m`, `wrapped p e` is `p: e`, and
-- `naming m x` a text `m` that ends in the value `x`; `reapply_failed f e i n` is about the file
-- `f`, when `i` of `n` files were done.
pub data Error : Type 0 where
  not_started : Error
  sending : SendError → Error
  connection_stale : Error
  connection_lost : String → Error
  ctx : CtxError → Error
  said : String → Error
  failed : String → String → Error
  naming : String → String → Error
  wrapped : String → Error → Error
  unexpected_type : Error
  reapply_failed : String → Error → ℕ → ℕ → Error
  backend_refused : BackendError → Error
  timed_out : ℤ → Error

pub data Result {ℓ} (A : Type ℓ) : Type ℓ where
  ok : A → Result A
  err : Error → Result A

-- To split on a computed result and keep the equation.
pub Result-cases {ℓ} :
    {A : Type ℓ} (r : Result A) → ((a : A) × (r ≡ ok a)) ⊎ ((e : Error) × (r ≡ err e))
Result-cases (ok a) = inl (a, refl)
Result-cases (err e) = inr (e, refl)

abbrev pub Tool {ℓ} : Type ℓ → Type ℓ
Tool A = Session → Result A × Session

abbrev pub pure {ℓ} : {A : Type ℓ} → A → Tool A
pure a s = (ok a, s)

abbrev pub throw {ℓ} : {A : Type ℓ} → Error → Tool A
throw e s = (err e, s)

abbrev pub after {ℓ κ} :
    {A : Type ℓ} {B : Type κ} → Result A → Session → (A → Tool B) → Result B × Session
after (ok a) s f = f a s
after (err e) s f = (err e, s)

infixl 5 ◌>>=◌ ◌>>◌
abbrev pub ◌>>=◌ {ℓ κ} : {A : Type ℓ} {B : Type κ} → Tool A → (A → Tool B) → Tool B
(m >>= f) s = after (m s).0 (m s).1 f

abbrev pub ◌>>◌ {ℓ} : {B : Type ℓ} → Tool (Unit {0}) → Tool B → Tool B
m >> k = m >>= λ _. k

-- `fmt.Errorf("m: %w", err)`
abbrev pub wrap_error {ℓ} : {A : Type ℓ} → String → Result A → Result A
wrap_error m (ok a) = ok a
wrap_error m (err e) = err (wrapped m e)

abbrev pub wrapping {ℓ} : {A : Type ℓ} → String → Tool A → Tool A
wrapping m t s = (wrap_error m (t s).0, (t s).1)

abbrev pub get : Tool Session
get s = (ok s, s)

-- A check or a choice that leaves the session alone.
abbrev pub lift {ℓ} : {A : Type ℓ} → Result A → Tool A
lift r s = (r, s)

abbrev pub modify : (Session → Session) → Tool (Unit {0})
modify f s = (ok tt, f s)

abbrev pub with_client : Client → Session → Session
with_client c s = record s { client = some c }

-- `if ds.client == nil { return nil, nil, fmt.Errorf("debugger not started") }`
abbrev pub started : Option Client → Result (Unit {0})
started none = err not_started
started (some c) = ok tt

abbrev pub guard_started : Tool (Unit {0})
guard_started s = (started s.client, s)

abbrev pub waited_result {ℓ} : {A : Type ℓ} → Waited A → Result A
waited_result (happened a) = ok a
waited_result (lost m) = err (connection_lost m)
waited_result closed = err connection_stale
waited_result (gave_up e) = err (ctx e)

-- What `AwaitResponse` returns: the response, or the error of the context, or that the connection
-- was lost meanwhile.
pub data Reply : Type 0 where
  answered : Response → Reply
  dropped : Reply
  given_up : CtxError → Reply

-- The adapter, the socket and the clock during one call of a tool: what happens to the request with
-- a given number, what comes during the wait that begins when a given number is the next, and the
-- time then.
pub record Env : Type 0 where
  pub written : ℕ → Option String
  pub answer : ℕ → Reply
  pub wait : ℕ → Wait
  pub now : ℕ → ℕ

-- The client when `AwaitResponse` has returned. The reader takes the entry of an answered request
-- off the registry; a caller that gives up leaves it there; a lost connection closes them all.
unfoldable pub after_reply : Reply → ℕ → Client → Client
after_reply (answered r) seq c = with_registry (Registry.unregister seq c.registry) c
after_reply dropped seq c = close_registry (mark_stale c)
after_reply (given_up e) seq c = c

abbrev reply_result : Reply → Result Response
reply_result (answered r) = ok r
reply_result dropped = err connection_stale
reply_result (given_up e) = err (ctx e)

-- A request and its response: `seq, err := ds.client.X(...)` and `AwaitResponse(ctx, seq)`.
unfoldable pub call : Env → (Option String → Client → Sent) → Tool Response
call env method s = elim s.client [
  | none ↦ (err not_started, s)
  | some c ↦
      let r = method (env.written c.seq) c in
      elim r.0.1 [
        | some e ↦ (err (sending e), with_client r.1 s)
        | none ↦ (
          reply_result (env.answer r.0.0),
          with_client (after_reply (env.answer r.0.0) r.0.0 r.1) s,
        )
      ]
]

abbrev pub check_success : String → Response → Tool (Unit {0})
check_success error_prefix r = if r.success then pure tt else throw (failed error_prefix r.message)

-- A call, then `if !r.Success { return fmt.Errorf("%s: %s", errorPrefix, r.Message) }`:
-- `awaitResponseValidate`.
unfoldable pub validated : Env → String → (Option String → Client → Sent) → Tool (Unit {0})
validated env error_prefix method = do r ← call env method; check_success error_prefix r

abbrev expect {ℓ} : {B : Type ℓ} → Option B → Tool B
expect (some b) = pure b
expect none = throw unexpected_type

abbrev pub expect_body {ℓ} : {B : Type ℓ} → (Body → Option B) → Response → Tool B
expect_body typed r = if r.success then expect (typed r.body) else throw (said r.message)

-- A call, then `awaitResponseTyped`: `typed` finds the body of the type that is asked for.
unfoldable pub typed_call {ℓ} :
    {B : Type ℓ} → Env → (Body → Option B) → (Option String → Client → Sent) → Tool B
typed_call env typed method = do r ← call env method; expect_body typed r

-- The number of the next request, which stands for the moment.
abbrev pub moment : Session → ℕ
moment s = elim s.client [ none ↦ 0 | some c ↦ c.seq ]

-- `time.Now()`
abbrev pub time_now : Env → Session → ℕ
time_now env s = env.now (moment s)

-- `awaitStopOrTerminate`, subscribed from `since` on. It is called with a client only.
abbrev pub await_stop_on : Env → ℕ → Option Client → Waited (Option ℤ)
await_stop_on env since none = closed
await_stop_on env since (some c) = Waits.await_stop_or_terminate since (env.wait c.seq) c.bus

unfoldable pub await_stop : Env → ℕ → Session → Waited (Option ℤ)
unfolding Waits.await_stop_or_terminate
await_stop env since s = await_stop_on env since s.client

-- `awaitInitializedEvent`, called with a client only.
abbrev pub await_initialized_on : Env → ℕ → Option Client → Waited (Unit {0})
await_initialized_on env since none = closed
await_initialized_on env since (some c) = Waits.await_initialized_event since (env.wait c.seq) c.bus

unfoldable pub await_initialized_or_fail : Env → ℕ → Tool (Unit {0})
unfolding Waits.await_initialized_event
await_initialized_or_fail env since s = (waited_result (await_initialized_on env since s.client), s)

-- `defaultThreadID`
unfoldable pub default_thread_id : Session → ℤ
default_thread_id s = if eqb_ℤ s.stopped_thread_id (pos 0) then pos 1 else s.stopped_thread_id

-- `if threadID == 0 { threadID = ds.defaultThreadID() }`
abbrev pub thread_or_default : ℤ → Session → ℤ
thread_or_default thread_id s = if eqb_ℤ thread_id (pos 0) then default_thread_id s else thread_id
