-- ===== src/Dap/Reconnect.antt =====
-- dap.go: `reconnectLoop`, `doReconnect` and `notifySessionReconnected`. What `Redial` returns,
-- when the context ends and what the backoff limit is at each moment come with each attempt.
pub mod Backoff
pub mod Outcome
pub mod HookError
pub mod Machine
use mcp_dap_server_k8s_forwa.Prelude.{
  ℕ, ◌+◌, ◌*◌, ◌%◌, ◌^◌, String, List, [], ◌∷◌, Option, none, some, Bool, true, false,
  if◌then◌else◌, inc_uint32, ltb_int,
}
use mcp_dap_server_k8s_forwa.Dap.Client.{Client, mark_stale, replace_conn}

-- `connected k` is a new connection; `no_conn` is a nil one without an error.
pub data Redial : Type 0 where
  connected : ℕ → Redial
  no_conn : Redial
  refused : String → Redial

-- One round of `doReconnect`: whether the context is done when the round starts, after the old
-- connection is closed, and during the backoff; and `reconnectMaxBackoff` as read at its end.
pub record Attempt : Type 0 where
  pub done_before : Bool
  pub redial : Redial
  pub done_after_close : Bool
  pub done_in_backoff : Bool
  pub max_backoff : ℕ

-- `lasting` is a loop that has used up the attempts and would go on.
pub data Ending : Type 0 where
  reconnected aborted lasting : Ending

-- A hook with what else happens to the client while it runs; `some e` is its error.
abbrev pub Hook : Type 0
Hook = Client → Option String × Client

-- `notifySessionReconnected`
unfoldable pub notify_session_reconnected : Hook → Client → Client
unfolding mark_stale
notify_session_reconnected hook c =
    if c.hooked then (let (e, c') = hook c in elim e [ none ↦ c' | some x ↦ mark_stale c' ]) else c

-- `backoff *= 2`, and the limit. Durations are 64-bit words.
unfoldable pub next_backoff : ℕ → ℕ → ℕ
next_backoff max_backoff backoff =
    let doubled = backoff * 2 % 2 ^ 64 in
    if ltb_int max_backoff doubled then max_backoff else doubled

unfoldable pub count_attempt : Client → Client
count_attempt c = record c { reconnect_attempts = inc_uint32 c.reconnect_attempts }

-- The branch of a successful dial.
unfoldable pub install : Hook → Bool → ℕ → Client → Ending × Client
install hook done_after_close rwc c =
    if done_after_close
    then (aborted, c)
    else let c1 = record (replace_conn rwc c) { last_reconnect_error = some "" } in
      (reconnected, record (notify_session_reconnected hook c1) { stale = false })

unfoldable pub store_error : String → Client → Client
store_error e c = record c { last_reconnect_error = some e }

-- What an attempt comes to: a connection, or the text of an error.
unfoldable pub dialled : Redial → Option ℕ × String
dialled (connected k) = (some k, "")
dialled no_conn = (none, "Redial returned nil connection without error")
dialled (refused e) = (none, e)

-- The loop of `doReconnect`, with the list of the waits that it makes.
unfoldable pub reconnect_from : Hook → ℕ → List Attempt → Client → Ending × List ℕ × Client
reconnect_from hook backoff [] c = (lasting, [], c)
reconnect_from hook backoff (a ∷ attempts) c =
    let c1 = count_attempt c in
    let (conn, e) = dialled a.redial in
    let c2 = store_error e c1 in
    let rest = reconnect_from hook (next_backoff a.max_backoff backoff) attempts c2 in
    if a.done_before then (aborted, [], c) else elim conn [
      | some k ↦ (let (end, c3) = install hook a.done_after_close k c1 in (end, [], c3))
      | none ↦ if a.done_in_backoff then (aborted, [], c2) else (rest.0, backoff ∷ rest.1, rest.2)
    ]

-- `doReconnect`: the first backoff is `reconnectBaseBackoff`.
unfoldable pub do_reconnect : Hook → ℕ → List Attempt → Client → Ending × List ℕ × Client
unfolding reconnect_from
do_reconnect hook base attempts c = reconnect_from hook base attempts c

-- `reconnectBaseBackoff` and `reconnectMaxBackoff`, in nanoseconds.
abbrev pub reconnect_base_backoff : ℕ
reconnect_base_backoff = 1_000_000_000

abbrev pub reconnect_max_backoff : ℕ
reconnect_max_backoff = 30_000_000_000
