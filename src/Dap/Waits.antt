-- ===== src/Dap/Waits.antt =====
-- tools.go: `awaitStopOrTerminate` and `awaitInitializedEvent`, on the event bus of dap.go.
pub mod First
use mcp_dap_server_k8s_forwa.Prelude.{ℕ, ℤ, String, List, [], ◌∷◌, Option, none, some}
use mcp_dap_server_k8s_forwa.Dap.Message.{Event, stopped, terminated, initialized, connection_lost}
use mcp_dap_server_k8s_forwa.Dap.Ring
use mcp_dap_server_k8s_forwa.Dap.Ring.Replay.{push_all}
use mcp_dap_server_k8s_forwa.Dap.Bus.{
  Bus, EventType, stopped_type, terminated_type, initialized_type, connection_lost_type, RingEntry,
  zero_entry, Subscription, new_subscription, fan_out_one,
}

-- Why a wait was given up: the deadline of its own, or the caller's context.
pub data CtxError : Type 0 where
  deadline_exceeded canceled : CtxError

-- What a wait for events ends in: one that was waited for, a `ConnectionLostEvent`, a closed
-- channel, or the end of the context.
pub data Waited {ℓ} (A : Type ℓ) : Type ℓ where
  happened : A → Waited A
  lost : String → Waited A
  closed : Waited A
  gave_up : CtxError → Waited A

-- The cases of the `select`: the event that is waited for, a `TerminatedEvent`, a
-- `ConnectionLostEvent`, and the context.
pub data Case : Type 0 where
  event_case termination_case loss_case context_case : Case

-- What is left to the environment in one wait: the events that the reader dispatches before the
-- subscriptions, those that it dispatches or broadcasts behind them and before the `select` is
-- decided, an order in which the `select` prefers the cases that are ready (Go takes any of them;
-- `context_case` stands in it if the context is done then), and how the context ends. If no case of
-- the order is ready, the wait lasts until the context ends.
pub record Wait : Type 0 where
  pub before : List RingEntry
  pub comes : List Event
  pub order : List Case
  pub ctx_error : CtxError

-- The fan-out of some events, for one subscription.
unfoldable pub arriving : List Event → Subscription → Subscription
unfolding fan_out_one
arriving [] s = s
arriving (e ∷ es) s = arriving es (fan_out_one e s)

-- What a subscription from `since` on has in its channel when the `select` is decided. The bridge
-- moves its events on in this order, so its first one is what the `select` receives. The
-- subscriptions of one wait are made at one point, at which no event comes.
unfoldable pub channel_at : EventType → ℕ → Wait → Bus → List Event
unfolding arriving new_subscription Ring.snapshot
channel_at ty since w b =
    let entries = Ring.snapshot zero_entry (push_all b.replay_ring w.before) in
    (arriving w.comes (new_subscription ty since entries 0)).ch

unfoldable pub taken_stop : List Event → Option (Waited (Option ℤ))
taken_stop (stopped reason thread ∷ rest) = some (happened (some thread))
taken_stop _ = none

unfoldable pub taken_termination : List Event → Option (Waited (Option ℤ))
taken_termination (terminated ∷ rest) = some (happened none)
taken_termination _ = none

unfoldable pub taken_initialized : List Event → Option (Waited (Unit {0}))
taken_initialized (initialized ∷ rest) = some (happened tt)
taken_initialized _ = none

unfoldable pub taken_loss {ℓ} : {A : Type ℓ} → List Event → Option (Waited A)
taken_loss (connection_lost e ∷ rest) = some (lost e)
taken_loss _ = none

-- The `select`: the first case of the order that is ready.
unfoldable pub select {ℓ} :
    {A : Type ℓ} → (Case → Option (Waited A)) → List Case → CtxError → Waited A
select ready [] e = gave_up e
select ready (c ∷ order) e = elim (ready c) [ none ↦ select ready order e | some w ↦ w ]

unfoldable pub stop_cases : ℕ → Wait → Bus → Case → Option (Waited (Option ℤ))
unfolding taken_stop taken_termination taken_loss channel_at
stop_cases since w b event_case = taken_stop (channel_at stopped_type since w b)
stop_cases since w b termination_case = taken_termination (channel_at terminated_type since w b)
stop_cases since w b loss_case = taken_loss (channel_at connection_lost_type since w b)
stop_cases since w b context_case = some (gave_up w.ctx_error)

-- `awaitStopOrTerminate`: the thread that stopped, or none if the program has terminated. No channel
-- is closed before its `cancel`.
unfoldable pub await_stop_or_terminate : ℕ → Wait → Bus → Waited (Option ℤ)
unfolding select stop_cases
await_stop_or_terminate since w b = select (stop_cases since w b) w.order w.ctx_error

unfoldable pub initialized_cases : ℕ → Wait → Bus → Case → Option (Waited (Unit {0}))
unfolding taken_initialized taken_loss channel_at
initialized_cases since w b event_case = taken_initialized (channel_at initialized_type since w b)
initialized_cases since w b termination_case = none
initialized_cases since w b loss_case = taken_loss (channel_at connection_lost_type since w b)
initialized_cases since w b context_case = some (gave_up w.ctx_error)

-- `awaitInitializedEvent`
unfoldable pub await_initialized_event : ℕ → Wait → Bus → Waited (Unit {0})
unfolding select initialized_cases
await_initialized_event since w b = select (initialized_cases since w b) w.order w.ctx_error
