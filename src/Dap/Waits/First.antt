-- ===== src/Dap/Waits/First.antt =====
-- tools.go: which event a wait takes.
use mcp_dap_server_k8s_forwa.Prelude.{
  ℕ, ℤ, ◌≡◌, ◌≢◌, refl, sym, ap, ◌∙◌, subst, String, List, [], ◌∷◌, ◌++◌, Option, none, some, true,
  false, keep, All, length, ltb, append-nil, if◌then◌else◌, Bool-cases, if_true, if_false,
  Option-cases, inl, inr,
}
use mcp_dap_server_k8s_forwa.Dap.Message.{
  Event, stopped, terminated, initialized, connection_lost, other_event,
}
use mcp_dap_server_k8s_forwa.Dap.Ring.{snapshot}
use mcp_dap_server_k8s_forwa.Dap.Ring.Replay.{push_all}
use mcp_dap_server_k8s_forwa.Dap.Bus.{
  Bus, EventType, stopped_type, initialized_type, type_of, same_type, RingEntry, zero_entry,
  event_buf_size, Subscription, new_subscription, offer, fan_out_one, replay,
}
use mcp_dap_server_k8s_forwa.Dap.Waits.{
  Waited, happened, CtxError, Case, event_case, termination_case, loss_case, context_case, Wait,
  arriving, channel_at, taken_stop, taken_termination, taken_initialized, taken_loss, select,
  stop_cases, await_stop_or_terminate, initialized_cases, await_initialized_event,
}

abbrev pub of_type : EventType → List Event → List Event
of_type ty = keep (λ e. same_type ty (type_of e))

-- The snapshot of `Subscribe` in the wait.
abbrev entries_at : Wait → Bus → List RingEntry
entries_at w b = snapshot zero_entry (push_all b.replay_ring w.before)

-- What `Subscribe` replays in the wait.
abbrev pub replayed_at : EventType → ℕ → Wait → Bus → List Event
replayed_at ty since w b =
    replay ty since (snapshot zero_entry (push_all b.replay_ring w.before)) []

first : List Event → Option Event
first [] = none
first (e ∷ es) = some e

first-offer :
    (e : Event) (ch more : List Event) → first (offer e ch ++ more) ≡ first (ch ++ (e ∷ more))
unfolding first offer
first-offer e [] more = refl
first-offer e (x ∷ ch) more = elim (Bool-cases (ltb (length (x ∷ ch)) event_buf_size)) [
  | inl room ↦ rw room refl
  | inr full ↦ rw full refl
]

fan_out_one-same :
    (e : Event) (s : Subscription)
    → s.stop ≡ false
    → same_type s.event_type (type_of e) ≡ true
    → fan_out_one e s ≡ record s { ch = offer e s.ch }
unfolding fan_out_one
fan_out_one-same e s live same = if_true _ _ same ∙ if_false _ _ live

fan_out_one-other :
    (e : Event) (s : Subscription)
    → same_type s.event_type (type_of e) ≡ false
    → fan_out_one e s ≡ s
unfolding fan_out_one
fan_out_one-other e s other = if_false _ _ other

-- Whatever is dropped when the channel is full, its first event is the first that came.
arriving-first :
    (es : List Event) (s : Subscription)
    → s.stop ≡ false
    → first (arriving es s).ch ≡ first (s.ch ++ of_type s.event_type es)
unfolding arriving
arriving-first [] s live = ap first (sym (append-nil s.ch))
arriving-first (e ∷ es) s live = elim (Bool-cases (same_type s.event_type (type_of e))) [
  | inl same ↦
      ap (λ u. first (arriving es u).ch) (fan_out_one-same e s live same)
      ∙ arriving-first es (record s { ch = offer e s.ch }) live
      ∙ first-offer e s.ch (of_type s.event_type es)
      ∙ ap (λ xs. first (s.ch ++ xs)) (sym (if_true _ _ same))
  | inr other ↦
      ap (λ u. first (arriving es u).ch) (fan_out_one-other e s other)
      ∙ arriving-first es s live
      ∙ ap (λ xs. first (s.ch ++ xs)) (sym (if_false _ _ other))
]

-- Every event of the list has the type.
abbrev AllOf : EventType → List Event → Type 0
AllOf ty = All (λ e. same_type ty (type_of e) ≡ true)

offer-AllOf :
    (ty : EventType) (e : Event) (ch : List Event)
    → same_type ty (type_of e) ≡ true
    → AllOf ty ch
    → AllOf ty (offer e ch)
unfolding offer
offer-AllOf ty e ch same h = elim (Bool-cases (ltb (length ch) event_buf_size)) [
  | inl room ↦ rw room (snoc ch h)
  | inr full ↦ rw full h
]
  where
    snoc : (xs : List Event) → AllOf ty xs → AllOf ty (xs ++ (e ∷ []))
    snoc [] h = (same, tt)
    snoc (x ∷ xs) h = (h.0, snoc xs h.1)

replay-AllOf :
    (ty : EventType) (since : ℕ) (entries : List RingEntry) (ch : List Event)
    → AllOf ty ch
    → AllOf ty (replay ty since entries ch)
unfolding replay
replay-AllOf ty since [] ch h = h
replay-AllOf ty since (e ∷ entries) ch h = elim (Bool-cases (ltb e.t since)) [
  | inl old ↦ rw (old, if◌then◌else◌) (replay-AllOf ty since entries ch h)
  | inr new ↦ elim (Bool-cases (same_type ty (type_of e.msg))) [
    | inl same ↦
        rw (new, same)
          (replay-AllOf ty since entries (offer e.msg ch) (offer-AllOf ty e.msg ch same h))
    | inr other ↦ rw (new, other) (replay-AllOf ty since entries ch h)
  ]
]

arriving-AllOf :
    (es : List Event) (s : Subscription)
    → s.stop ≡ false
    → AllOf s.event_type s.ch
    → AllOf s.event_type (arriving es s).ch
unfolding arriving
arriving-AllOf [] s live h = h
arriving-AllOf (e ∷ es) s live h = elim (Bool-cases (same_type s.event_type (type_of e))) [
  | inl same ↦
      subst (λ u. AllOf s.event_type (arriving es u).ch) (sym (fan_out_one-same e s live same))
        (arriving-AllOf es (record s { ch = offer e s.ch }) live
          (offer-AllOf s.event_type e s.ch same h))
  | inr other ↦
      subst (λ u. AllOf s.event_type (arriving es u).ch) (sym (fan_out_one-other e s other))
        (arriving-AllOf es s live h)
]

channel_at-AllOf :
    (ty : EventType) (since : ℕ) (w : Wait) (b : Bus) → AllOf ty (channel_at ty since w b)
unfolding channel_at new_subscription
channel_at-AllOf ty since w b =
    arriving-AllOf w.comes (new_subscription ty since (entries_at w b) 0) refl
      (replay-AllOf ty since (entries_at w b) [] tt)

module _ {ℓ} {A : Type ℓ} (ready : Case → Option (Waited A)) (c : Case) (order : List Case)
    (e : CtxError) where
  select-skips : ready c ≡ none → select ready (c ∷ order) e ≡ select ready order e
  unfolding select
  select-skips q = rw (q, select) refl

  pub select-takes : (w : Waited A) → ready c ≡ some w → select ready (c ∷ order) e ≡ w
  unfolding select
  select-takes w q = rw (q, select) refl

-- A `select` that ends in an event has taken a case that was ready with it.
select-happened {ℓ} :
    {A : Type ℓ} (ready : Case → Option (Waited A)) (order : List Case) (e : CtxError) (a : A)
    → select ready order e ≡ happened a
    → (c : Case) × (ready c ≡ some (happened a))
unfolding select
select-happened ready [] e a h = absurd (cc h)
select-happened ready (c ∷ order) e a h = elim (Option-cases (ready c)) [
  | inl q ↦ select-happened ready order e a (sym (select-skips ready c order e q) ∙ h)
  | inr (w, q) ↦ (c, q ∙ ap some (sym (select-takes ready c order e w q) ∙ h))
]

taken_stop-some :
    (es : List Event) (thread : ℤ)
    → taken_stop es ≡ some (happened (some thread))
    → (reason : String) × (first es ≡ some (stopped reason thread))
unfolding taken_stop first
taken_stop-some [] thread h = absurd (cc h)
taken_stop-some (stopped reason t ∷ rest) thread h =
    let q : t ≡ thread = cc h in (reason, ap (λ t. some (stopped reason t)) q)
taken_stop-some (terminated ∷ rest) thread h = absurd (cc h)
taken_stop-some (initialized ∷ rest) thread h = absurd (cc h)
taken_stop-some (connection_lost e ∷ rest) thread h = absurd (cc h)
taken_stop-some (other_event n ∷ rest) thread h = absurd (cc h)

-- What the other cases are ready with is no stop.
abbrev IsNoStop : Option (Waited (Option ℤ)) → Type 0
IsNoStop o = (thread : ℤ) → o ≢ some (happened (some thread))

taken_termination-IsNoStop : (es : List Event) → IsNoStop (taken_termination es)
unfolding taken_termination
taken_termination-IsNoStop [] thread h = cc h
taken_termination-IsNoStop (stopped reason t ∷ rest) thread h = cc h
taken_termination-IsNoStop (terminated ∷ rest) thread h = cc h
taken_termination-IsNoStop (initialized ∷ rest) thread h = cc h
taken_termination-IsNoStop (connection_lost e ∷ rest) thread h = cc h
taken_termination-IsNoStop (other_event n ∷ rest) thread h = cc h

taken_loss-IsNoStop : (es : List Event) → IsNoStop (taken_loss es)
unfolding taken_loss
taken_loss-IsNoStop [] thread h = cc h
taken_loss-IsNoStop (stopped reason t ∷ rest) thread h = cc h
taken_loss-IsNoStop (terminated ∷ rest) thread h = cc h
taken_loss-IsNoStop (initialized ∷ rest) thread h = cc h
taken_loss-IsNoStop (connection_lost e ∷ rest) thread h = cc h
taken_loss-IsNoStop (other_event n ∷ rest) thread h = cc h

stop_cases-stop :
    (since : ℕ) (w : Wait) (b : Bus) (c : Case) (thread : ℤ)
    → stop_cases since w b c ≡ some (happened (some thread))
    → taken_stop (channel_at stopped_type since w b) ≡ some (happened (some thread))
unfolding stop_cases
stop_cases-stop since w b event_case thread h = h
stop_cases-stop since w b termination_case thread h = absurd (taken_termination-IsNoStop _ thread h)
stop_cases-stop since w b loss_case thread h = absurd (taken_loss-IsNoStop _ thread h)
stop_cases-stop since w b context_case thread h = absurd (cc h)

first-channel_at :
    (ty : EventType) (since : ℕ) (w : Wait) (b : Bus)
    → first (channel_at ty since w b) ≡ first (replayed_at ty since w b ++ of_type ty w.comes)
unfolding channel_at new_subscription
first-channel_at ty since w b =
    arriving-first w.comes (new_subscription ty since (entries_at w b) 0) refl

first-some :
    (es : List Event) (e : Event) → first es ≡ some e → (rest : List Event) × (es ≡ e ∷ rest)
unfolding first
first-some [] e h = absurd (cc h)
first-some (x ∷ es) e h = let q : x ≡ e = cc h in (es, ap (λ x. x ∷ es) q)

-- A wait that ends in a stop ends in the first that was replayed or that came.
pub await_stop_or_terminate-first :
    (since : ℕ) (w : Wait) (b : Bus) (thread : ℤ)
    → await_stop_or_terminate since w b ≡ happened (some thread)
    → (reason : String) × (rest : List Event) × (replayed_at stopped_type since w b
          ++ of_type stopped_type w.comes
        ≡ stopped reason thread ∷ rest)
unfolding await_stop_or_terminate
await_stop_or_terminate-first since w b thread h =
    let (c, q) = select-happened (stop_cases since w b) w.order w.ctx_error (some thread) h in
    let (reason, f) = taken_stop-some _ thread (stop_cases-stop since w b c thread q) in
    let (rest, e) = first-some _ _ (sym (first-channel_at stopped_type since w b) ∙ f) in
    (reason, rest, e)

taken_initialized-AllOf :
    (es : List Event) (e : Event)
    → AllOf initialized_type es
    → first es ≡ some e
    → taken_initialized es ≡ some (happened tt)
unfolding first taken_initialized same_type type_of
taken_initialized-AllOf [] e h f = absurd (cc f)
taken_initialized-AllOf (initialized ∷ es) e h f = refl
taken_initialized-AllOf (stopped reason t ∷ es) e h f = absurd (cc (h.0))
taken_initialized-AllOf (terminated ∷ es) e h f = absurd (cc (h.0))
taken_initialized-AllOf (connection_lost x ∷ es) e h f = absurd (cc (h.0))
taken_initialized-AllOf (other_event n ∷ es) e h f = absurd (cc (h.0))

append-first :
    (xs ys : List Event) (y : Event) → first ys ≡ some y → (e : Event) × (first (xs ++ ys) ≡ some e)
unfolding first
append-first [] ys y h = (y, h)
append-first (x ∷ xs) ys y h = (x, refl)

-- An `initialized` event comes in the wait, and the `select` prefers its case.
abbrev pub Greets : Wait → Type 0
Greets w =
    (cases : List Case) × (more : List Event) × (w.order ≡ event_case ∷ cases)
    × (of_type initialized_type w.comes ≡ initialized ∷ more)

-- If an `initialized` event comes and the `select` prefers its case, the wait ends in it.
pub await_initialized_event-happened :
    (since : ℕ) (w : Wait) (b : Bus) → Greets w → await_initialized_event since w b ≡ happened tt
unfolding await_initialized_event initialized_cases first
await_initialized_event-happened since w b (cases, more, o, h) =
    let (e, f) =
      append-first (replayed_at initialized_type since w b) (of_type initialized_type w.comes)
        initialized (ap first h) in
    let ready =
      taken_initialized-AllOf (channel_at initialized_type since w b) e
        (channel_at-AllOf initialized_type since w b)
        (first-channel_at initialized_type since w b ∙ f) in
    ap (λ cs. select (initialized_cases since w b) cs w.ctx_error) o
    ∙ select-takes (initialized_cases since w b) event_case cases w.ctx_error (happened tt) ready
