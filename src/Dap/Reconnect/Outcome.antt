-- ===== src/Dap/Reconnect/Outcome.antt =====
-- How `doReconnect` ends.
use mcp_dap_server_k8s_forwa.Prelude.{
  ℕ, ◌+◌, ◌%◌, ◌^◌, ◌<◌, ◌≡◌, refl, ap, ◌∙◌, List, [], ◌∷◌, ◌++◌, Option, none, some, true, false,
  if◌then◌else◌, length, All, arith,
}
use mcp_dap_server_k8s_forwa.Dap.Registry
use mcp_dap_server_k8s_forwa.Dap.Registry.Inv.{Inv, close_registry-Inv}
use mcp_dap_server_k8s_forwa.Dap.Message.{Message}
use mcp_dap_server_k8s_forwa.Dap.Client.{Client, replace_conn}
use mcp_dap_server_k8s_forwa.Dap.Reconnect.{
  Attempt, connected, Hook, reconnected, next_backoff, reconnect_from, dialled, count_attempt,
  store_error, do_reconnect, install, notify_session_reconnected,
}
use mcp_dap_server_k8s_forwa.Dap.Reconnect.Backoff.{IsFailing, reconnect_from-cons}

-- The client after failed attempts: each counted, the last error stored.
unfoldable pub after_failures : List Attempt → Client → Client
after_failures [] c = c
after_failures (a ∷ attempts) c =
    after_failures attempts (store_error (dialled a.redial).1 (count_attempt c))

reconnect_from-connected :
    (hook : Hook) (backoff k : ℕ) (good : Attempt) (more : List Attempt) (c : Client)
    → good.done_before ≡ false
    → good.redial ≡ connected k
    → reconnect_from hook backoff (good ∷ more) c
      ≡ (let (end, c') = install hook good.done_after_close k (count_attempt c) in (end, [], c'))
unfolding reconnect_from dialled install
reconnect_from-connected hook backoff k good more c g e = rw (g, e)

reconnect_from_failures :
    (hook : Hook) (limit backoff k : ℕ) (fails more : List Attempt) (good : Attempt) (c : Client)
    → All (IsFailing limit) fails
    → good.done_before ≡ false
    → good.redial ≡ connected k
    → let r = reconnect_from hook backoff (fails ++ (good ∷ more)) c in
      let i = install hook good.done_after_close k (count_attempt (after_failures fails c)) in
      (r.0 ≡ i.0) × (r.2 ≡ i.1)
unfolding after_failures
reconnect_from_failures hook limit backoff k [] more good c f g e =
    rw (reconnect_from-connected hook backoff k good more c g e) (refl, refl)
reconnect_from_failures hook limit backoff k (a ∷ fails) more good c f g e =
    rw (reconnect_from-cons hook backoff limit a (fails ++ (good ∷ more)) c f.0) (
      reconnect_from_failures hook limit (next_backoff limit backoff) k fails more good
        (store_error (dialled a.redial).1 (count_attempt c)) f.1 g e)

-- The failures count, and change nothing else but the error.
after_failures_lem :
    (fails : List Attempt) (c : Client)
    → c.reconnect_attempts < 2 ^ 32
    → let c' = after_failures fails c in
      (c'.reconnect_attempts ≡ (c.reconnect_attempts + length fails) % 2 ^ 32)
      × (c'.seq ≡ c.seq)
      × (c'.stale ≡ c.stale)
      × (c'.registry ≡ c.registry)
      × (c'.wire ≡ c.wire)
      × (c'.hooked ≡ c.hooked)
unfolding after_failures count_attempt store_error
after_failures_lem [] c h = (omega arith, refl, refl, refl, refl, refl)
after_failures_lem (a ∷ fails) c h =
    let w =
      after_failures_lem fails (store_error (dialled a.redial).1 (count_attempt c)) (omega arith) in
    (omega (arith, w.0), w.1, w.2, w.3, w.4, w.5)

-- What the hook is given: the new connection, with nothing pending on it.
unfoldable pub handed : ℕ → List Attempt → Client → Client
unfolding after_failures
handed k fails c = record (replace_conn k (count_attempt (after_failures fails c))) {
  last_reconnect_error = some "";
}

pub close_registry-empty :
    (m : List (ℕ × ℕ)) (r : Registry.Registry)
    → (Registry.close_all m r).0 ≡ Registry.done
    → (Registry.close_all m r).1.responses ≡ []
unfolding Registry.close_all
close_registry-empty [] r d = refl
close_registry-empty ((s, i) ∷ m) r d =
    ground (arith, close_registry-empty m (Registry.close_chan i (record r { responses = m })).1)

-- With the connection still stale, neither outcome of the hook does anything to the flag.
pub notify_lem :
    (hook : Hook) (c : Client)
    → (hook c).1.stale ≡ true
    → notify_session_reconnected hook c ≡ (if c.hooked then (hook c).1 else c)
unfolding notify_session_reconnected
notify_lem hook c keeps = ground arith

notify_ok :
    (hook : Hook) (c : Client)
    → c.hooked ≡ true
    → (hook c).0 ≡ none
    → notify_session_reconnected hook c ≡ (hook c).1
unfolding notify_session_reconnected
notify_ok hook c h ok = simp (h, ok)

install_ok :
    (hook : Hook) (k : ℕ) (c : Client)
    → c.hooked ≡ true
    → (hook (record (replace_conn k c) { last_reconnect_error = some "" })).0 ≡ none
    → install hook false k c ≡ (
      reconnected,
      record (hook (record (replace_conn k c) { last_reconnect_error = some "" })).1 {
        stale = false;
      },
    )
unfolding install replace_conn
install_ok hook k c h ok = rw (notify_ok hook _ h ok)

handed_lem :
    (k : ℕ) (fails : List Attempt) (c : Client) (flight : Option (ℕ × Message))
    → c.reconnect_attempts < 2 ^ 32
    → Inv (record { registry = c.registry; flight = flight })
    → let h = handed k fails c in
      (h.rwc ≡ k)
      × (h.seq ≡ c.seq)
      × (h.reconnect_attempts ≡ (c.reconnect_attempts + length fails + 1) % 2 ^ 32)
      × (h.registry.responses ≡ [])
unfolding handed replace_conn count_attempt
handed_lem k fails c flight small v =
    let w = after_failures_lem fails c small in
    (
      refl,
      w.1,
      omega (arith, w.0),
      rw w.3 (
          close_registry-empty c.registry.responses c.registry
            (close_registry-Inv flight c.registry v).0),
    )

-- After failed attempts, a successful dial, when the context goes on and the hook is set and
-- succeeds: the loop ends, and the client is what the hook makes of the one handed to it, no longer
-- stale. The hook gets the new connection, all attempts counted, the sequence number as it was and
-- no request pending.
pub do_reconnect_succeeds :
    (hook : Hook) (base limit k : ℕ) (fails more : List Attempt) (good : Attempt) (c : Client)
    (flight : Option (ℕ × Message))
    → c.reconnect_attempts < 2 ^ 32
    → All (IsFailing limit) fails
    → good.done_before ≡ false
    → good.redial ≡ connected k
    → good.done_after_close ≡ false
    → c.hooked ≡ true
    → (hook (handed k fails c)).0 ≡ none
    → Inv (record { registry = c.registry; flight = flight })
    → let r = do_reconnect hook base (fails ++ (good ∷ more)) c in
      let h = handed k fails c in
      (r.0 ≡ reconnected)
      × (r.2 ≡ record (hook h).1 { stale = false })
      × (h.rwc ≡ k)
      × (h.seq ≡ c.seq)
      × (h.reconnect_attempts ≡ (c.reconnect_attempts + length fails + 1) % 2 ^ 32)
      × (h.registry.responses ≡ [])
unfolding do_reconnect handed count_attempt
do_reconnect_succeeds hook base limit k fails more good c flight small f g e l hk ok v =
    let w = after_failures_lem fails c small in
    let r = reconnect_from_failures hook limit base k fails more good c f g e in
    let d = count_attempt (after_failures fails c) in
    let i = install_ok hook k d (w.5 ∙ hk) ok in
    let h = handed_lem k fails c flight small v in
    (r.0 ∙ rw l (ap (λ p. p.0) i), r.1 ∙ rw l (ap (λ p. p.1) i), h.0, h.1, h.2, h.3)
