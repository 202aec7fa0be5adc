-- ===== src/Dap/Reconnect/HookError.antt =====
-- dap.go: what an error of the hook of `doReconnect` comes to.
use mcp_dap_server_k8s_forwa.Prelude.{
  ℕ, ◌≡◌, refl, sym, ap, ◌∙◌, List, [], ◌∷◌, some, Bool, true, String, if◌then◌else◌, Bool-cases,
  Option-cases, inl, inr,
}
use mcp_dap_server_k8s_forwa.Dap.Client.{Client, replace_conn}
use mcp_dap_server_k8s_forwa.Dap.Reconnect.{
  Attempt, Hook, next_backoff, reconnect_from, dialled, count_attempt, store_error, do_reconnect,
  install, notify_session_reconnected,
}
use mcp_dap_server_k8s_forwa.Dap.Reconnect.Outcome.{notify_lem}

stale-replace_conn : (k : ℕ) (c : Client) → (replace_conn k c).stale ≡ c.stale
unfolding replace_conn
stale-replace_conn k c = refl

notify_same :
    (h1 h2 : Hook) (c : Client)
    → (h1 c).1 ≡ (h2 c).1
    → (h1 c).1.stale ≡ true
    → notify_session_reconnected h1 c ≡ notify_session_reconnected h2 c
notify_same h1 h2 c same keeps =
    notify_lem h1 c keeps
    ∙ ap (λ d. if c.hooked then d else c) same
    ∙ sym (notify_lem h2 c (rw (← same) keeps))

stale-store_error :
    (e : String) (c : Client) → c.stale ≡ true → (store_error e (count_attempt c)).stale ≡ true
unfolding store_error count_attempt
stale-store_error e c h = h

stale-count_attempt : (c : Client) → c.stale ≡ true → (count_attempt c).stale ≡ true
unfolding count_attempt
stale-count_attempt c h = h

install_same :
    (h1 h2 : Hook) (done_after_close : Bool) (k : ℕ) (c : Client)
    → ((d : Client) → (h1 d).1 ≡ (h2 d).1)
    → ((d : Client) → d.stale ≡ true → (h1 d).1.stale ≡ true)
    → c.stale ≡ true
    → install h1 done_after_close k c ≡ install h2 done_after_close k c
unfolding install
install_same h1 h2 done_after_close k c same keeps stale =
    let d = record (replace_conn k c) { last_reconnect_error = some "" } in
    let e : notify_session_reconnected h1 d ≡ notify_session_reconnected h2 d =
      notify_same h1 h2 d (same d) (keeps d (stale-replace_conn k c ∙ stale)) in
    rw e

-- On a stale connection a hook's error makes no difference: `markStale` finds the connection stale
-- already, sends no signal, and `stale` is cleared all the same. So two hooks, one of which may
-- fail and the other succeed, with the same effect on every client and which leave a stale client
-- stale, end in the same state.
pub hook_error_ignored :
    (h1 h2 : Hook) (attempts : List Attempt) (backoff : ℕ) (c : Client)
    → ((d : Client) → (h1 d).1 ≡ (h2 d).1)
    → ((d : Client) → d.stale ≡ true → (h1 d).1.stale ≡ true)
    → c.stale ≡ true
    → do_reconnect h1 backoff attempts c ≡ do_reconnect h2 backoff attempts c
unfolding do_reconnect reconnect_from
hook_error_ignored h1 h2 [] backoff c same keeps stale = refl
hook_error_ignored h1 h2 (a ∷ attempts) backoff c same keeps stale =
    let d = store_error (dialled a.redial).1 (count_attempt c) in
    let ih =
      hook_error_ignored h1 h2 attempts (next_backoff a.max_backoff backoff) d same keeps
        (stale-store_error (dialled a.redial).1 c stale) in
    elim (Bool-cases a.done_before) [
      | inl yet ↦ rw yet
      | inr not_yet ↦ elim (Option-cases (dialled a.redial).0) [
        | inl failed ↦ rw (not_yet, failed) (rw ih)
        | inr (k, e) ↦
            rw (not_yet, e)
              (rw (
                install_same h1 h2 a.done_after_close k (count_attempt c) same keeps
                  (stale-count_attempt c stale)))
      ]
    ]
