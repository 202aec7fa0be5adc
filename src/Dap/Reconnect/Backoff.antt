-- ===== src/Dap/Reconnect/Backoff.antt =====
-- The waits of `doReconnect` between failed attempts.
use native.Mathlib.Nat.{pow-suc}
use mcp_dap_server_k8s_forwa.Prelude.{
  ℕ, zero, suc, ◌*◌, ◌^◌, ◌≤◌, ◌<◌, ◌≡◌, refl, ap, ◌∙◌, List, [], ◌∷◌, none, false, min, length,
  All, arith, subst,
}
use mcp_dap_server_k8s_forwa.Dap.Client.{Client}
use mcp_dap_server_k8s_forwa.Dap.Reconnect.{
  Attempt, Hook, lasting, next_backoff, reconnect_from, dialled, count_attempt, store_error,
  do_reconnect,
}

-- The dial fails and the context goes on, under a constant limit.
pub record IsFailing (limit : ℕ) (a : Attempt) : Type 0 where
  pub not_before : a.done_before ≡ false
  pub no_connection : (dialled a.redial).0 ≡ none
  pub not_in_backoff : a.done_in_backoff ≡ false
  pub limit_constant : a.max_backoff ≡ limit

-- The wait after attempt `k`, from 0: doubled each time, up to the limit.
abbrev pub delay : ℕ → ℕ → ℕ → ℕ
delay base limit k = min (base * 2 ^ k) limit

abbrev pub delays : ℕ → ℕ → ℕ → ℕ → List ℕ
delays base limit k zero = []
delays base limit k (suc n) = delay base limit k ∷ delays base limit (suc k) n

-- One failed attempt: it is counted, its error is stored, the wait is made, and the loop goes on.
pub reconnect_from-cons :
    (hook : Hook) (backoff limit : ℕ) (a : Attempt) (attempts : List Attempt) (c : Client)
    → IsFailing limit a
    → reconnect_from hook backoff (a ∷ attempts) c ≡ (
        let rest =
          reconnect_from hook
            (next_backoff limit backoff)
            attempts
            (store_error (dialled a.redial).1 (count_attempt c)) in
        (rest.0, backoff ∷ rest.1, rest.2))
unfolding reconnect_from
reconnect_from-cons hook backoff limit a attempts c f =
    rw (f.not_before, f.no_connection, f.not_in_backoff, f.limit_constant)

-- Doubling a 64-bit word below the limit does not wrap.
next_backoff-min :
    (x limit : ℕ) → limit < 2 ^ 62 → next_backoff limit (min x limit) ≡ min (x * 2) limit
unfolding next_backoff
next_backoff-min x limit h = ground arith

module _ (base limit : ℕ) (small : limit < 2 ^ 62) where
  next_backoff-delay : (k : ℕ) → next_backoff limit (delay base limit k) ≡ delay base limit (suc k)
  next_backoff-delay k =
      next_backoff-min (base * 2 ^ k) limit small
      ∙ ap (λ x. min x limit) (omega (arith, ap (λ t. base * t) (pow-suc 2 k)))

  waits_from :
      (hook : Hook) (k : ℕ) (attempts : List Attempt) (c : Client)
      → All (IsFailing limit) attempts
      → let r = reconnect_from hook (delay base limit k) attempts c in
        (r.0 ≡ lasting) × (r.1 ≡ delays base limit k (length attempts))
  unfolding reconnect_from
  waits_from hook k [] c h = (refl, refl)
  waits_from hook k (a ∷ attempts) c h =
      let c' = store_error (dialled a.redial).1 (count_attempt c) in
      let (e, w) = waits_from hook (suc k) attempts c' h.1 in
      rw
        (reconnect_from-cons hook (delay base limit k) limit a attempts c h.0, next_backoff-delay k)
        (e, ap (◌∷◌ (delay base limit k)) w)

  -- While every dial fails and the context goes on, under a constant limit that is at least the
  -- base and below 2^62, `doReconnect` goes on for as many attempts as there are, and waits
  -- `base * 2 ^ k`, but never more than the limit, after attempt `k` (counted from 0).
  pub do_reconnect_waits :
      (hook : Hook) (attempts : List Attempt) (c : Client)
      → base ≤ limit
      → All (IsFailing limit) attempts
      → let r = do_reconnect hook base attempts c in
        (r.0 ≡ lasting) × (r.1 ≡ delays base limit 0 (length attempts))
  unfolding do_reconnect
  do_reconnect_waits hook attempts c h f =
      let e : delay base limit 0 ≡ base = omega arith in
      let w = waits_from hook 0 attempts c f in
      (
        subst (λ b. (reconnect_from hook b attempts c).0 ≡ lasting) e w.0,
        subst (λ b. (reconnect_from hook b attempts c).1 ≡ delays base limit 0 (length attempts)) e
            w.1,
      )
