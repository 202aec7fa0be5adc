-- ===== src/Session/Reconnecting/Outcomes.antt =====
-- How a call of `reconnect` ends.
use mcp_dap_server_k8s_forwa.Prelude.{
  ℕ, ◌+◌, ◌≤◌, ◌<◌, ◌≡◌, ◌⊎◌, inl, inr, refl, pos, negsuc, ltb_ℤ, ap, ◌∙◌, ℤ, List, [], ◌∷◌, ◌++◌,
  none, some, Bool, true, false, ◌&&◌, not, if◌then◌else◌, if_true, if_false, ltb, lt→ltb, ltb→lt,
  All, arith,
}
use mcp_dap_server_k8s_forwa.Dap.Client.{Client, mark_stale}
use mcp_dap_server_k8s_forwa.Session.{Session, ok, with_client}
use mcp_dap_server_k8s_forwa.Session.Control.{bounded_timeout}
use mcp_dap_server_k8s_forwa.Session.Control.Run.{bounded_timeout-bounds}
use mcp_dap_server_k8s_forwa.Session.Reconnecting.{
  Tick, ended, poll, status_of, millis, can_redial, finish, reconnect_stale, reconnect_with,
  reconnect,
}

-- A round in which the loop goes on: the connection is stale, the time is not up, and the context
-- goes on.
pub record IsWaiting (deadline : ℕ) (t : Tick) : Type 0 where
  pub still : t.client.stale ≡ true
  pub in_time : t.now < deadline
  pub on : t.over ≡ none

goes_on :
    (deadline now : ℕ) (c : Client)
    → c.stale ≡ true
    → now < deadline
    → (c.stale && ltb now deadline) ≡ true
goes_on deadline now c h w = ground (arith, lt→ltb now deadline w)

ends :
    (deadline now : ℕ) (c : Client)
    → (c.stale ≡ false) ⊎ (deadline ≤ now)
    → (c.stale && ltb now deadline) ≡ false
ends deadline now c q = ground arith

poll-ends :
    (deadline now : ℕ) (c : Client) (ticks : List Tick)
    → (c.stale ≡ false) ⊎ (deadline ≤ now)
    → poll deadline now c ticks ≡ ended now c
unfolding poll
poll-ends deadline now c [] q = if_false _ _ (ends deadline now c q)
poll-ends deadline now c (t ∷ ticks) q = if_false _ _ (ends deadline now c q)

poll-goes_on :
    (deadline now : ℕ) (c : Client) (t : Tick) (ticks : List Tick)
    → c.stale ≡ true
    → now < deadline
    → t.over ≡ none
    → poll deadline now c (t ∷ ticks) ≡ poll deadline t.now t.client ticks
unfolding poll
poll-goes_on deadline now c t ticks h w o = if_true _ _ (goes_on deadline now c h w) ∙ simp o

-- The rounds before the one that ends the loop are passed over.
poll-waits :
    (deadline now : ℕ) (c : Client) (ticks more : List Tick) (t : Tick)
    → c.stale ≡ true
    → now < deadline
    → All (IsWaiting deadline) ticks
    → t.over ≡ none
    → (t.client.stale ≡ false) ⊎ (deadline ≤ t.now)
    → poll deadline now c (ticks ++ (t ∷ more)) ≡ ended t.now t.client
poll-waits deadline now c [] more t h w v o q =
    poll-goes_on deadline now c t more h w o ∙ poll-ends deadline t.now t.client more q
poll-waits deadline now c (x ∷ ticks) more t h w v o q =
    poll-goes_on deadline now c x (ticks ++ (t ∷ more)) h w v.0.on
    ∙ poll-waits deadline x.now x.client ticks more t v.0.still v.0.in_time v.1 o q

reconnect-polls :
    (start : ℕ) (timeout : ℤ) (ticks : List Tick) (c : Client) (s : Session)
    → c.stale ≡ true
    → reconnect_stale true timeout start ticks c s
      ≡ finish start c.reconnect_attempts
          (poll (start + millis (bounded_timeout timeout)) start c ticks)
          (with_client c s)
unfolding reconnect_stale
reconnect-polls start timeout ticks c s h = if_false _ _ (ap not h)

millis-positive : (d : ℤ) → ltb_ℤ (pos 0) d ≡ true → 0 < millis d
millis-positive (pos n) h = let q = ltb→lt 0 n h in omega arith
millis-positive (negsuc n) h = absurd (cc h)

marked :
    (c : Client)
    → ((mark_stale c).stale ≡ true) × ((mark_stale c).reconnect_attempts ≡ c.reconnect_attempts)
unfolding mark_stale
marked c = (ground arith, ground arith)

-- The client that the loop looks at first: stale, with the attempts as they were.
looked_at :
    (force : Bool) (c : Client)
    → (force ≡ true) ⊎ (c.stale ≡ true)
    → let d = if force then mark_stale c else c in
      (d.stale ≡ true) × (d.reconnect_attempts ≡ c.reconnect_attempts)
looked_at true c h = marked c
looked_at false c (inl h) = absurd (cc h)
looked_at false c (inr h) = (h, refl)

reconnect_with-eq :
    (force : Bool) (timeout : ℤ) (start : ℕ) (ticks : List Tick) (c : Client) (s : Session)
    → can_redial s.backend ≡ true
    → reconnect_with force timeout start ticks (some c) s
      ≡ reconnect_stale true timeout start ticks (if force then mark_stale c else c) s
unfolding reconnect_with
reconnect_with-eq force timeout start ticks c s h =
    let e : (force && not (can_redial s.backend)) ≡ false = ground (arith, h) in
    if_false _ _ e
    ∙ ap (λ b. reconnect_stale b timeout start ticks (if force then mark_stale c else c) s) h

-- `reconnect` on a stale connection, or with `force`, when the backend can redial: after any rounds in
-- which the connection stays stale before the deadline and the context goes on, the first round in
-- which the connection is no longer stale, or the deadline has come, ends the call. It says which of
-- the two it was, with the time since the start and, if it has recovered, the attempts since the
-- start.
pub reconnect-ends :
    (force : Bool) (timeout : ℤ) (start : ℕ) (ticks more : List Tick) (t : Tick) (c : Client)
    (s : Session)
    → s.client ≡ some c
    → can_redial s.backend ≡ true
    → (force ≡ true) ⊎ (c.stale ≡ true)
    → let deadline = start + millis (bounded_timeout timeout) in
      All (IsWaiting deadline) ticks
      → t.over ≡ none
      → (t.client.stale ≡ false) ⊎ (deadline ≤ t.now)
      → reconnect force timeout start (ticks ++ (t ∷ more)) s
        ≡ (some (ok (status_of start c.reconnect_attempts t.now t.client)), with_client t.client s)
unfolding reconnect
reconnect-ends force timeout start ticks more t c s e b f w o q =
    let all = ticks ++ (t ∷ more) in
    let d : Client = if force then mark_stale c else c in
    let deadline = start + millis (bounded_timeout timeout) in
    let (h, n) = looked_at force c f in
    let soon : start < deadline =
      omega (arith, millis-positive (bounded_timeout timeout) (bounded_timeout-bounds timeout).0) in
    ap (λ x. reconnect_with force timeout start all x s) e
    ∙ reconnect_with-eq force timeout start all c s b
    ∙ reconnect-polls start timeout all d s h
    ∙ ap (λ x. finish start d.reconnect_attempts x (with_client d s))
        (poll-waits deadline start d ticks more t h soon w o q)
    ∙ ap (λ x. (some (ok (status_of start x t.now t.client)), with_client t.client s)) n
