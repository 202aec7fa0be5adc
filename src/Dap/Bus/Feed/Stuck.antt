-- ===== src/Dap/Bus/Feed/Stuck.antt =====
-- dap.go: a bridge goroutine that waits for room in `out`.
use mcp_dap_server_k8s_forwa.Prelude.{
  ℕ, zero, suc, List, ◌++◌, true, false, length-append, ◌≡◌, ◌≤◌, refl, sym, ◌∙◌, [], ◌∷◌, length,
  arith,
}
use mcp_dap_server_k8s_forwa.Dap.Message.{Event}
use mcp_dap_server_k8s_forwa.Dap.Bus.{EventType, event_buf_size, same_type, type_of, offer}
use mcp_dap_server_k8s_forwa.Dap.Bus.Feed.{
  new_feed, Reach, here, next, subscribed, idle, is_registered, unregistered, replaying, removed,
  choosing, handing, draining, Feed, Step, registers, replays, starts_bridge, copies, skips, checks,
  offers, takes, hands, sees_stop, drains, returns, removes, stops, Run, still, acts,
}
use mcp_dap_server_k8s_forwa.Dap.Bus.Feed.Placed.{call-ne}

-- The bridge cannot go on: it has an event for `out`, and `out` is full.
abbrev pub IsStuck : Event → Feed → Type 0
IsStuck e l = (l.bridge ≡ handing e) × (event_buf_size ≤ length l.out)

Step-IsStuck :
    {ty : EventType} {since : ℕ} {l m : Feed} (e : Event)
    → Step ty since l m
    → l.call ≡ removed
    → IsStuck e l
    → (m.call ≡ removed) × IsStuck e m
Step-IsStuck {l} e (registers entries p) c v =
    absurd (call-ne l (unregistered entries) p (λ x. absurd (cc x)) c)
Step-IsStuck {l} e (replays x entries p) c v =
    absurd (call-ne l (replaying (x ∷ entries)) p (λ x. absurd (cc x)) c)
Step-IsStuck {l} e (starts_bridge p) c v =
    absurd (call-ne l (replaying []) p (λ x. absurd (cc x)) c)
Step-IsStuck e (copies x p q r) c v = (c, v)
Step-IsStuck e (skips x p q) c v = (c, v)
Step-IsStuck e (checks x p q) c v = (c, v)
Step-IsStuck e (offers x p) c v = (c, v)
Step-IsStuck e (takes x rest p q) c v = let u : choosing ≡ handing e = sym p ∙ v.0 in absurd (cc u)
Step-IsStuck e (hands x p q) c v = absurd (omega arith)
Step-IsStuck e (sees_stop p q) c v = let u : choosing ≡ handing e = sym p ∙ v.0 in absurd (cc u)
Step-IsStuck e (drains x rest p q) c v = let u : draining ≡ handing e = sym p ∙ v.0 in absurd (cc u)
Step-IsStuck e (returns p q) c v = let u : draining ≡ handing e = sym p ∙ v.0 in absurd (cc u)
Step-IsStuck {l} e (removes p) c v = (refl, v)
Step-IsStuck e (stops p q) c v = (c, v)

-- Whatever the goroutines do, a stuck bridge stays stuck as long as nothing reads `out`.
Run-IsStuck :
    {ty : EventType} {since : ℕ} (e : Event) {l u : Feed}
    → l.call ≡ removed
    → IsStuck e l
    → Run ty since l u
    → (u.call ≡ removed) × IsStuck e u
Run-IsStuck e c v still = (c, v)
Run-IsStuck e c v (acts r st) = let (d, w) = Run-IsStuck e c v r in Step-IsStuck e st d w

-- `n` times the same event, the newest last.
many : ℕ → Event → List Event
many zero e = []
many (suc n) e = many n e ++ (e ∷ [])

length-many : (n : ℕ) (e : Event) → length (many n e) ≡ n
unfolding many
length-many zero e = refl
length-many (suc n) e = omega (arith, length-many n e, length-append (many n e) (e ∷ []))

-- A subscription to which nothing was replayed, behind `n` events that nothing has read.
filled : ℕ → Event → Feed
filled n e = record {
  call = subscribed;
  fan = idle;
  bridge = choosing;
  ch = [];
  out = many n e;
  stop = false;
  received = [];
  replayed = [];
  live = many n e;
  due = many n e;
}

module _ (ty : EventType) (since : ℕ) (e : Event) (same : same_type ty (type_of e) ≡ true) where
  -- One more event is dispatched, and the bridge takes it.
  one_more : ℕ → Feed
  unfolding filled
  one_more n = record (filled n e) {
    bridge = handing e;
    live = many n e ++ (e ∷ []);
    due = many n e ++ (e ∷ []);
  }

  Reach-one_more :
      (n : ℕ)
      → Reach ty since (new_feed []) (filled n e)
      → Reach ty since (new_feed []) (one_more n)
  unfolding filled one_more is_registered offer
  Reach-one_more n r =
      next (next (next (next r (copies e refl refl same)) (checks e refl refl)) (offers e refl))
        (takes e [] refl refl)

  Reach-filled : (n : ℕ) → n ≤ event_buf_size → Reach ty since (new_feed []) (filled n e)
  unfolding filled one_more many
  Reach-filled zero h = next (next here (registers [] refl)) (starts_bridge refl)
  Reach-filled (suc n) h =
      next (Reach-one_more n (Reach-filled n (omega arith)))
        (hands e refl (omega (arith, length-many n e)))

  -- An event that has the subscription's type can come so often that `cancel` leaves the bridge
  -- goroutine behind for good: a state is reached in which `cancel` has returned and from which, as
  -- long as nothing reads `out`, every run leads to a state in which the bridge still holds that
  -- event and `out` is full.
  pub Reach-IsStuck :
      (l : Feed) × Reach ty since (new_feed []) l
      × (l.stop ≡ true)
      × ((u : Feed) → Run ty since l u → IsStuck e u)
  unfolding filled one_more
  Reach-IsStuck =
      let full = Reach-one_more event_buf_size (Reach-filled event_buf_size (omega arith)) in
      (
        record (one_more event_buf_size) { call = removed; stop = true },
        next (next full (removes refl)) (stops refl refl),
        refl,
        λ u r. (Run-IsStuck e refl (refl, omega (arith, length-many event_buf_size e)) r).1,
      )
