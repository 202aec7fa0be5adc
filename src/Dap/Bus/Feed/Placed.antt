-- ===== src/Dap/Bus/Feed/Placed.antt =====
-- dap.go: where the caller and the bridge of a subscription can be.
use mcp_dap_server_k8s_forwa.Prelude.{
  ℕ, ◌≡◌, ◌≢◌, ◌⊎◌, inl, inr, refl, sym, ◌∙◌, subst, List, [], ◌∷◌, Bool, false,
}
use mcp_dap_server_k8s_forwa.Dap.Bus.{EventType, RingEntry}
use mcp_dap_server_k8s_forwa.Dap.Bus.Feed.{
  Call, unregistered, replaying, subscribed, removed, Bridge, unborn, choosing, handing, draining,
  gone, Feed, new_feed, Step, registers, replays, starts_bridge, copies, skips, checks, offers,
  takes, hands, sees_stop, drains, returns, removes, stops, Reach, here, next, reads,
}

-- The bridge has been started.
abbrev pub IsRunning : Bridge → Type 0
IsRunning unborn = ⊥
IsRunning choosing = Unit
IsRunning (handing e) = Unit
IsRunning draining = Unit
IsRunning gone = Unit

abbrev pub HasBridge : Call → Bridge → Type 0
HasBridge (unregistered entries) b = Unit
HasBridge (replaying entries) b = Unit
HasBridge subscribed b = IsRunning b
HasBridge removed b = IsRunning b

HasBridge-running : (c : Call) (b : Bridge) → IsRunning b → HasBridge c b
HasBridge-running (unregistered entries) b h = tt
HasBridge-running (replaying entries) b h = tt
HasBridge-running subscribed b h = h
HasBridge-running removed b h = h

-- `cancel` can only be called when `Subscribe` has returned, and closes `stop` last.
pub record Placed (l : Feed) : Type 0 where
  pub bridge_started : HasBridge l.call l.bridge
  pub stop_last : (l.stop ≡ false) ⊎ (l.call ≡ removed)

stop_last-at :
    (s : Bool) (c d : Call)
    → (s ≡ false) ⊎ (c ≡ removed)
    → (c ≢ removed)
    → (s ≡ false) ⊎ (d ≡ removed)
stop_last-at s c d (inl h) n = inl h
stop_last-at s c d (inr h) n = absurd (n h)

pub call-ne : (l : Feed) (c : Call) → l.call ≡ c → c ≢ removed → l.call ≢ removed
call-ne l c p n q = n (sym p ∙ q)

Step-Placed : {ty : EventType} {since : ℕ} {l m : Feed} → Step ty since l m → Placed l → Placed m
Step-Placed {l} (registers entries p) v = record {
  bridge_started = tt;
  stop_last =
      stop_last-at l.stop l.call (replaying entries) v.stop_last
        (call-ne l (unregistered entries) p (λ x. absurd (cc x)));
}
Step-Placed {l} (replays e entries p) v = record {
  bridge_started = tt;
  stop_last =
      stop_last-at l.stop l.call (replaying entries) v.stop_last
        (call-ne l (replaying (e ∷ entries)) p (λ x. absurd (cc x)));
}
Step-Placed {l} (starts_bridge p) v = record {
  bridge_started = tt;
  stop_last =
      stop_last-at l.stop l.call subscribed v.stop_last
        (call-ne l (replaying []) p (λ x. absurd (cc x)));
}
Step-Placed (copies e p q r) v = record {
  bridge_started = v.bridge_started;
  stop_last = v.stop_last;
}
Step-Placed (skips e p q) v = record { bridge_started = v.bridge_started; stop_last = v.stop_last }
Step-Placed (checks e p q) v = record { bridge_started = v.bridge_started; stop_last = v.stop_last }
Step-Placed (offers e p) v = record { bridge_started = v.bridge_started; stop_last = v.stop_last }
Step-Placed {l} (takes e rest p q) v = record {
  bridge_started = HasBridge-running l.call (handing e) tt;
  stop_last = v.stop_last;
}
Step-Placed {l} (hands e p q) v = record {
  bridge_started = HasBridge-running l.call choosing tt;
  stop_last = v.stop_last;
}
Step-Placed {l} (sees_stop p q) v = record {
  bridge_started = HasBridge-running l.call draining tt;
  stop_last = v.stop_last;
}
Step-Placed (drains e rest p q) v = record {
  bridge_started = v.bridge_started;
  stop_last = v.stop_last;
}
Step-Placed {l} (returns p q) v = record {
  bridge_started = HasBridge-running l.call gone tt;
  stop_last = v.stop_last;
}
Step-Placed {l} (removes p) v = record {
  bridge_started = subst (λ c. HasBridge c l.bridge) p v.bridge_started;
  stop_last = inr refl;
}
Step-Placed (stops p q) v = record { bridge_started = v.bridge_started; stop_last = inr p }

pub Reach-Placed :
    (ty : EventType) (since : ℕ) (seen : List RingEntry) {l : Feed}
    → Reach ty since (new_feed seen) l
    → Placed l
Reach-Placed ty since seen here = record { bridge_started = tt; stop_last = inl refl }
Reach-Placed ty since seen (next r st) = Step-Placed st (Reach-Placed ty since seen r)
Reach-Placed ty since seen (reads {m} r e rest p) =
    let v = Reach-Placed ty since seen r in
    record { bridge_started = v.bridge_started; stop_last = v.stop_last }
