-- ===== src/Session/Reconnecting.antt =====
-- tools.go: the `reconnect` tool. It looks at the flags that the reconnect loop sets, every 100 ms.
pub mod Outcomes
use mcp_dap_server_k8s_forwa.Prelude.{
  ℕ, ◌+◌, ◌-◌, ◌*◌, ◌%◌, ◌/◌, ◌^◌, ℤ, pos, negsuc, String, List, [], ◌∷◌, Option, none, some, Bool,
  true, false, ◌&&◌, not, if◌then◌else◌, ltb,
}
use mcp_dap_server_k8s_forwa.Backend.{Backend, redials}
use mcp_dap_server_k8s_forwa.Dap.Client.{Client, mark_stale}
use mcp_dap_server_k8s_forwa.Session.{
  Session, Error, CtxError, ctx, not_started, said, Result, ok, err, Tool, throw, with_client,
}
use mcp_dap_server_k8s_forwa.Session.Control.{bounded_timeout}

-- A round of the polling loop: the time in milliseconds, the client as it is then, and whether the
-- context has ended before.
pub record Tick : Type 0 where
  pub now : ℕ
  pub client : Client
  pub over : Option CtxError

-- How the loop ends: at a time, with the client as it is then; with the context; or not yet when the
-- rounds are used up.
pub data Polled : Type 0 where
  ended : ℕ → Client → Polled
  gave_up : CtxError → Polled
  lasting : Polled

-- `for client.stale.Load() && time.Now().Before(deadline)`
unfoldable pub poll : ℕ → ℕ → Client → List Tick → Polled
poll deadline now c [] = if c.stale && ltb now deadline then lasting else ended now c
poll deadline now c (t ∷ ticks) =
    let rest = poll deadline t.now t.client ticks in
    if c.stale && ltb now deadline
    then elim t.over [ none ↦ rest | some e ↦ gave_up e ]
    else ended now c

-- `recovered` has the seconds and the attempts, `still_reconnecting` the seconds, the attempts, the
-- last error and whether there were attempts at the start.
pub data Status : Type 0 where
  healthy : Status
  recovered : ℕ → ℕ → Status
  still_reconnecting : ℕ → ℕ → String → Bool → Status

abbrev last_error : Client → String
last_error c = elim c.last_reconnect_error [ none ↦ "" | some e ↦ e ]

-- The status when the loop has ended; the attempts are counted on 32 bits.
abbrev pub status_of : ℕ → ℕ → ℕ → Client → Status
status_of start before now c =
    if c.stale
    then still_reconnecting ((now - start) / 1000) c.reconnect_attempts (last_error c)
        (ltb 0 before)
    else recovered ((now - start) / 1000) ((c.reconnect_attempts + (2 ^ 32 - before)) % 2 ^ 32)

-- Seconds to milliseconds, for a timeout that is positive.
abbrev pub millis : ℤ → ℕ
millis (pos n) = n * 1000
millis (negsuc n) = 0

abbrev pub finish : ℕ → ℕ → Polled → Session → Option (Result Status) × Session
finish start before (ended now c) s = (some (ok (status_of start before now c)), with_client c s)
finish start before (gave_up e) s = (some (err (ctx e)), s)
finish start before lasting s = (none, s)

abbrev pub can_redial : Option Backend → Bool
can_redial none = false
can_redial (some b) = redials b

-- From the check of the flag on.
unfoldable pub reconnect_stale :
    Bool → ℤ → ℕ → List Tick → Client → Session → Option (Result Status) × Session
unfolding poll
reconnect_stale supported timeout start ticks c s =
    if not c.stale
    then (some (ok healthy), with_client c s)
    else (if not supported
        then (
          some (err (said "reconnect: connection stale but backend does not support redial")),
          with_client c s,
        )
        else finish start c.reconnect_attempts
            (poll (start + millis (bounded_timeout timeout)) start c ticks) (with_client c s))

unfoldable pub reconnect_with :
    Bool → ℤ → ℕ → List Tick → Option Client → Session → Option (Result Status) × Session
unfolding reconnect_stale
reconnect_with force timeout start ticks none s = (some (err not_started), s)
reconnect_with force timeout start ticks (some c) s =
    if force && not (can_redial s.backend)
    then (some (err (said "reconnect: backend does not support redial")), s)
    else reconnect_stale (can_redial s.backend) timeout start ticks
        (if force then mark_stale c else c) s

-- `reconnect`: `none` if it still polls when the rounds are used up.
unfoldable pub reconnect : Bool → ℤ → ℕ → List Tick → Session → Option (Result Status) × Session
unfolding reconnect_with
reconnect force timeout start ticks s = reconnect_with force timeout start ticks s.client s
