-- ===== src/Dap/Bus/Feed/Ending.antt =====
-- dap.go: what becomes of the goroutines of a subscription after `cancel`.
use mcp_dap_server_k8s_forwa.Prelude.{
  ℕ, ◌+◌, ◌*◌, ◌≡◌, ◌≢◌, ◌≤◌, ◌<◌, ◌⊎◌, inl, inr, refl, sym, ap, ◌∙◌, subst, List, [], ◌∷◌, ◌++◌,
  true, false, length, length-append, arith, Bool-cases, List-cases, ltb, ltb→lt,
}
use mcp_dap_server_k8s_forwa.Dap.Message.{Event}
use mcp_dap_server_k8s_forwa.Dap.Bus.{EventType, RingEntry, event_buf_size, offer}
use mcp_dap_server_k8s_forwa.Dap.Bus.Feed.{
  Call, unregistered, replaying, subscribed, removed, Fan, idle, copied, offering, Bridge, unborn,
  choosing, handing, draining, gone, Feed, new_feed, is_registered, Step, registers, replays,
  starts_bridge, copies, skips, checks, offers, takes, hands, sees_stop, drains, returns, removes,
  stops, Run, still, acts, run_length, Reach,
}
use mcp_dap_server_k8s_forwa.Dap.Bus.Feed.Placed.{
  IsRunning, HasBridge, Placed, Reach-Placed, call-ne,
}
use mcp_dap_server_k8s_forwa.Dap.Bus.Feed.Stuck.{IsStuck}

-- How many steps are left to the bridge, and to an event in the fan-out.
abbrev bridge_left : Bridge → List Event → ℕ
bridge_left unborn ch = 0
bridge_left choosing ch = 2 * length ch + 2
bridge_left (handing e) ch = 2 * length ch + 3
bridge_left draining ch = 2 * length ch + 1
bridge_left gone ch = 2 * length ch

abbrev fan_left : Fan → ℕ
fan_left idle = 0
fan_left (copied e) = 4
fan_left (offering e) = 3

abbrev pub steps_left : Feed → ℕ
steps_left l = bridge_left l.bridge l.ch + fan_left l.fan

-- `cancel` has returned.
pub record IsCancelled (l : Feed) : Type 0 where
  pub stopped : l.stop ≡ true
  pub off_the_list : l.call ≡ removed
  pub running : IsRunning l.bridge

bridge_left-offer :
    (b : Bridge) (ch : List Event) (e : Event) → bridge_left b (offer e ch) ≤ bridge_left b ch + 2
unfolding offer
bridge_left-offer b ch e = elim (Bool-cases (ltb (length ch) event_buf_size)) [
  | inl room ↦ rw room (grows b)
  | inr full ↦ rw full (omega arith)
]
  where
    grows : (b : Bridge) → bridge_left b (ch ++ (e ∷ [])) ≤ bridge_left b ch + 2
    grows unborn = omega arith
    grows choosing = omega (arith, length-append ch (e ∷ []))
    grows (handing x) = omega (arith, length-append ch (e ∷ []))
    grows draining = omega (arith, length-append ch (e ∷ []))
    grows gone = omega (arith, length-append ch (e ∷ []))

module _ (l : Feed) (v : IsCancelled l) where
  not_at : (c : Call) → l.call ≡ c → c ≢ removed → ⊥
  not_at c p n = call-ne l c p n v.off_the_list

  stop_open-absurd : l.stop ≡ false → ⊥
  stop_open-absurd p = let u : true ≡ false = sym v.stopped ∙ p in absurd (cc u)

-- Every step after `cancel` takes one of those that are left.
Step-left :
    {ty : EventType} {since : ℕ} {l m : Feed}
    → Step ty since l m
    → IsCancelled l
    → IsCancelled m × (steps_left m < steps_left l)
unfolding is_registered
Step-left {l} (registers entries p) v =
    absurd (not_at l v (unregistered entries) p (λ x. absurd (cc x)))
Step-left {l} (replays e entries p) v =
    absurd (not_at l v (replaying (e ∷ entries)) p (λ x. absurd (cc x)))
Step-left {l} (starts_bridge p) v = absurd (not_at l v (replaying []) p (λ x. absurd (cc x)))
Step-left {l} (copies e p q r) v =
    let u : false ≡ true = sym (ap is_registered v.off_the_list) ∙ q in absurd (cc u)
Step-left {l} (skips e p q) v = (
  record { stopped = v.stopped; off_the_list = v.off_the_list; running = v.running },
  rw p (omega arith),
)
Step-left {l} (checks e p q) v = absurd (stop_open-absurd l v q)
Step-left {l} (offers e p) v = (
  record { stopped = v.stopped; off_the_list = v.off_the_list; running = v.running },
  rw p (omega (arith, bridge_left-offer l.bridge l.ch e)),
)
Step-left {l} (takes e rest p q) v = (
  record { stopped = v.stopped; off_the_list = v.off_the_list; running = tt },
  rw (p, q) (omega arith),
)
Step-left {l} (hands e p q) v = (
  record { stopped = v.stopped; off_the_list = v.off_the_list; running = tt },
  rw p (omega arith),
)
Step-left {l} (sees_stop p q) v = (
  record { stopped = v.stopped; off_the_list = v.off_the_list; running = tt },
  rw p (omega arith),
)
Step-left {l} (drains e rest p q) v = (
  record { stopped = v.stopped; off_the_list = v.off_the_list; running = v.running },
  rw (p, q) (omega arith),
)
Step-left {l} (returns p q) v = (
  record { stopped = v.stopped; off_the_list = v.off_the_list; running = tt },
  rw p (omega arith),
)
Step-left {l} (removes p) v = absurd (not_at l v subscribed p (λ x. absurd (cc x)))
Step-left {l} (stops p q) v = absurd (stop_open-absurd l v q)

-- Where nothing can go on any more: the fan-out is not at work, and the bridge has returned or is
-- stuck.
abbrev pub IsOver : Feed → Type 0
IsOver l = (l.fan ≡ idle) × ((l.bridge ≡ gone) ⊎ ((e : Event) × IsStuck e l))

module _ (ty : EventType) (since : ℕ) (l : Feed) (v : IsCancelled l) where
  bridge_goes_on :
      (b : Bridge)
      → l.bridge ≡ b
      → IsRunning b
      → l.fan ≡ idle
      → IsOver l ⊎ ((m : Feed) × Step ty since l m)
  bridge_goes_on unborn p r f = elim r [ ]
  bridge_goes_on choosing p r f = inr (_, sees_stop p v.stopped)
  bridge_goes_on (handing e) p r f = elim (Bool-cases (ltb (length l.out) event_buf_size)) [
    | inl room ↦ inr (_, hands e p (ltb→lt _ _ room))
    | inr full ↦ inl (f, inr (e, (p, ground arith)))
  ]
  bridge_goes_on draining p r f = elim (List-cases l.ch) [
    | inl q ↦ inr (_, returns p q)
    | inr (e, rest, q) ↦ inr (_, drains e rest p q)
  ]
  bridge_goes_on gone p r f = inl (f, inl p)

  goes_on : (f : Fan) → l.fan ≡ f → IsOver l ⊎ ((m : Feed) × Step ty since l m)
  goes_on idle f = bridge_goes_on l.bridge refl v.running f
  goes_on (copied e) f = inr (_, skips e f v.stopped)
  goes_on (offering e) f = inr (_, offers e f)

Run-left :
    {ty : EventType} {since : ℕ} {l u : Feed}
    → IsCancelled l
    → (r : Run ty since l u) → IsCancelled u × (run_length r + steps_left u ≤ steps_left l)
unfolding run_length
Run-left v still = (v, omega arith)
Run-left v (acts r st) =
    let (w, h) = Run-left v r in let (x, k) = Step-left st w in (x, omega arith)

IsCancelled-at : (l : Feed) → Placed l → l.stop ≡ true → IsCancelled l
IsCancelled-at l v s = elim v.stop_last [
  | inl o ↦ let u : true ≡ false = sym s ∙ o in absurd (cc u)
  | inr p ↦ record {
    stopped = s;
    off_the_list = p;
    running = subst (λ c. HasBridge c l.bridge) p v.bridge_started;
  }
]

-- A subscription whose `stop` is closed comes to an end: from every such state that is reached, no
-- run, in which the goroutines take their steps in any order and `out` is not read, has more steps
-- than `steps_left`, and in the state to which it leads a further step can be taken, unless the
-- fan-out is not at work on the subscription and the bridge has returned, or is stuck at a full
-- `out`.
pub Run-ends :
    (ty : EventType) (since : ℕ) (seen : List RingEntry) {l u : Feed}
    → Reach ty since (new_feed seen) l
    → l.stop ≡ true
    → (r : Run ty since l u)
    → (run_length r + steps_left u ≤ steps_left l) × (IsOver u ⊎ ((m : Feed) × Step ty since u m))
Run-ends ty since seen {l} {u} q s r =
    let v = Reach-Placed ty since seen q in
    let c = IsCancelled-at l v s in
    let (w, h) = Run-left c r in (h, goes_on ty since u w u.fan refl)
