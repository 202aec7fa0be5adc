-- ===== src/Dap/Bus/FanOut.antt =====
-- One subscription among the others, under any mixture of events and rounds of its bridge.
use mcp_dap_server_k8s_forwa.Prelude.{
  ℕ, suc, ◌+◌, ◌≤◌, ◌<◌, ◌≡◌, ◌≢◌, refl, ap, ◌∙◌, List, [], ◌∷◌, ◌++◌, true, false, none, some,
  if◌then◌else◌, ltb, length, length-append, append-nil, append_assoc, arith, ltb→lt, Bool-cases,
  List-cases, inl, inr,
}
use mcp_dap_server_k8s_forwa.Dap.Message.{Event}
use mcp_dap_server_k8s_forwa.Dap.Bus.{
  EventType, type_of, same_type, event_buf_size, offer, Subscription, fan_out_one, fan_out,
  bridge_step, remove_sub, find_sub,
}
use mcp_dap_server_k8s_forwa.Dap.Bus.Replay.{offer_room}

-- What the reader of `out` has still to come, oldest first.
abbrev pub unread : Subscription → List Event
unread s = s.out ++ s.ch

pub data SubAct : Type 0 where
  arrives : Event → SubAct
  bridges : SubAct

unfoldable pub sub_act : SubAct → Subscription → Subscription
sub_act (arrives e) s = fan_out_one e s
sub_act bridges s = bridge_step s

unfoldable pub sub_run : List SubAct → Subscription → Subscription
unfolding sub_act
sub_run [] s = s
sub_run (a ∷ acts) s = sub_run acts (sub_act a s)

-- The events of type `ty` in a run, and how many events it has in all.
unfoldable pub arrived : EventType → List SubAct → List Event
arrived ty [] = []
arrived ty (arrives e ∷ acts) =
    let rest = arrived ty acts in if same_type ty (type_of e) then e ∷ rest else rest
arrived ty (bridges ∷ acts) = arrived ty acts

abbrev pub IsBounded : Subscription → Type 0
IsBounded s = (length s.ch ≤ event_buf_size) × (length s.out ≤ event_buf_size)

-- What one round of the bridge does: it drops and reorders nothing, and overfills nothing.
bridge_step_lem :
    (s : Subscription)
    → let s' = bridge_step s in
      (unread s' ≡ unread s)
      × (length s'.ch ≤ length s.ch)
      × (s'.stop ≡ s.stop)
      × (s'.event_type ≡ s.event_type)
      × (IsBounded s → IsBounded s')
unfolding bridge_step
bridge_step_lem s = elim (List-cases s.ch) [
  | inl e ↦ rw (e, bridge_step) (rw e (refl, omega arith, refl, refl, λ b. b))
  | inr (x, rest, e) ↦ elim (Bool-cases (ltb (length s.out) event_buf_size)) [
    | inl room ↦
        rw (e, bridge_step)
          (rw room (
            append_assoc s.out (x ∷ []) rest,
            omega arith,
            refl,
            refl,
            λ b. omega (arith, length-append s.out (x ∷ []), ltb→lt _ _ room),
          ))
    | inr full ↦ rw (e, bridge_step) (rw full (rw e (refl, omega arith, refl, refl, λ b. b)))
  ]
]

-- No event that arrives and no round of the bridge makes either channel hold more than its buffer,
-- if neither does before.
pub sub_act-IsBounded : (a : SubAct) (s : Subscription) → IsBounded s → IsBounded (sub_act a s)
unfolding sub_act fan_out_one offer
sub_act-IsBounded (arrives e) s b = ground (arith, length-append s.ch (e ∷ []))
sub_act-IsBounded bridges s b = (bridge_step_lem s).4 b

pub fan_out_one_room :
    (e : Event) (s : Subscription)
    → s.stop ≡ false
    → same_type s.event_type (type_of e) ≡ true
    → length s.ch < event_buf_size
    → fan_out_one e s ≡ record s { ch = s.ch ++ (e ∷ []) }
unfolding fan_out_one
fan_out_one_room e s live same h = rw (same, live, offer_room e s.ch h)

pub fan_out_one_other :
    (e : Event) (s : Subscription)
    → same_type s.event_type (type_of e) ≡ false
    → fan_out_one e s ≡ s
unfolding fan_out_one
fan_out_one_other e s other = rw other

-- If the events of its type that come fit into the channel beside what it holds, a subscription
-- that is not stopped gets all of them, once and in their order, behind what it has already,
-- whenever the bridge runs between them.
pub unread-sub_run :
    (acts : List SubAct) (s : Subscription)
    → s.stop ≡ false
    → length s.ch + length (arrived s.event_type acts) ≤ event_buf_size
    → unread (sub_run acts s) ≡ unread s ++ arrived s.event_type acts
unfolding sub_run arrived
unread-sub_run [] s live h = rw append-nil
unread-sub_run (arrives e ∷ acts) s live h =
    elim (Bool-cases (same_type s.event_type (type_of e))) [
      | inl same ↦
          let s' : Subscription = record s { ch = s.ch ++ (e ∷ []) } in
          let k : length s.ch + suc (length (arrived s.event_type acts)) ≤ event_buf_size =
            rw same at h in
          rw same (
            ap (λ u. unread (sub_run acts u)) (fan_out_one_room e s live same (omega arith))
            ∙ unread-sub_run acts s' live (omega (arith, length-append s.ch (e ∷ [])))
            ∙ simp append_assoc)
      | inr other ↦ rw other (
          ap (λ u. unread (sub_run acts u)) (fan_out_one_other e s other)
          ∙ unread-sub_run acts s live (rw other at h))
    ]
unread-sub_run (bridges ∷ acts) s live h =
    let (same, less, stop, ty, bound) = bridge_step_lem s in
    unread-sub_run acts (bridge_step s) (stop ∙ live) (rw ty (omega arith)) ∙ rw (same, ty)

pub find_sub-fan_out :
    (id : ℕ) (e : Event) (subs : List Subscription)
    → find_sub id (fan_out e subs)
      ≡ elim (find_sub id subs) [ none ↦ none | some s ↦ some (fan_out_one e s) ]
unfolding find_sub fan_out fan_out_one
find_sub-fan_out id e [] = refl
find_sub-fan_out id e (s ∷ subs) = ground (arith, find_sub-fan_out id e subs)

-- Cancelling one subscription leaves every other, which is found as before.
pub find_sub-remove_sub :
    (id k : ℕ) (subs : List Subscription)
    → id ≢ k
    → find_sub k (remove_sub id subs) ≡ find_sub k subs
unfolding find_sub remove_sub
find_sub-remove_sub id k [] h = refl
find_sub-remove_sub id k (s ∷ subs) h = ground (arith, find_sub-remove_sub id k subs h)
