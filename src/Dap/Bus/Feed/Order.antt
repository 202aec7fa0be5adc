-- ===== src/Dap/Bus/Feed/Order.antt =====
-- dap.go: the order in which a subscription gives its events, whatever the goroutines do.
use mcp_dap_server_k8s_forwa.Prelude.{
  ℕ, ◌+◌, ◌≡◌, ◌⊎◌, ◌≤◌, ◌<◌, refl, sym, ap, ◌∙◌, subst, List, [], ◌∷◌, ◌++◌, false, length, keep,
  length-append, append_assoc, append-nil, arith, Bool-cases, inl, inr, ltb, if◌then◌else◌,
}
use mcp_dap_server_k8s_forwa.Dap.Message.{Event}
use mcp_dap_server_k8s_forwa.Dap.Bus.{
  EventType, type_of, same_type, RingEntry, event_buf_size, offer, replay,
}
use mcp_dap_server_k8s_forwa.Dap.Bus.Replay.{wanted, events, offer_room}
use mcp_dap_server_k8s_forwa.Dap.Bus.Feed.{
  Call, unregistered, replaying, subscribed, removed, Fan, idle, copied, offering, Bridge, unborn,
  handing, Feed,
}

-- `zs` holds the elements of `xs` and of `ys`, those of each in their order, and no others.
pub data Merge {ℓ} {A : Type ℓ} : List A → List A → List A → Type ℓ where
  empty : Merge [] [] []
  of_left :
      {xs ys zs : List A} → Merge xs ys zs → (x : A) → Merge (xs ++ (x ∷ [])) ys (zs ++ (x ∷ []))
  of_right :
      {xs ys zs : List A} → Merge xs ys zs → (y : A) → Merge xs (ys ++ (y ∷ [])) (zs ++ (y ∷ []))

length-Merge {ℓ} :
    {A : Type ℓ} {xs ys zs : List A} → Merge xs ys zs → length zs ≡ length xs + length ys
length-Merge empty = omega arith
length-Merge (of_left {xs} {ys} {zs} m x) =
    omega (arith, length-Merge m, length-append xs (x ∷ []), length-append zs (x ∷ []))
length-Merge (of_right {xs} {ys} {zs} m y) =
    omega (arith, length-Merge m, length-append ys (y ∷ []), length-append zs (y ∷ []))

-- The event in the hand of the bridge, and of the fan-out; the entries that wait for the replay.
abbrev pub held : Bridge → List Event
held (handing e) = e ∷ []
held _ = []

abbrev pub in_flight : Fan → List Event
in_flight idle = []
in_flight (copied e) = e ∷ []
in_flight (offering e) = e ∷ []

abbrev pub pending : Call → List RingEntry
pending (unregistered entries) = entries
pending (replaying entries) = entries
pending subscribed = []
pending removed = []

-- What was read, and what is still to come from `out`, oldest first.
abbrev pub joined : List Event → List Event → Bridge → List Event → List Event
joined received out bridge ch = received ++ (out ++ (held bridge ++ ch))

abbrev pub given : Feed → List Event
given l = joined l.received l.out l.bridge l.ch

-- The bridge starts when the replay loop has ended.
abbrev pub IsStarted : Call → Bridge → Type 0
IsStarted (unregistered entries) b = b ≡ unborn
IsStarted (replaying entries) b = b ≡ unborn
IsStarted subscribed b = Unit
IsStarted removed b = Unit

pub record Ordered (ty : EventType) (since : ℕ) (seen : List RingEntry) (l : Feed) : Type 0 where
  pub merged :
      length l.replayed + length l.live ≤ event_buf_size → Merge l.replayed l.live (given l)
  pub replays_seen :
      l.replayed ++ events (keep (wanted ty since) (pending l.call))
      ≡ events (keep (wanted ty since) seen)
  pub live_due : l.stop ≡ false → l.due ≡ l.live ++ in_flight l.fan
  pub started : IsStarted l.call l.bridge

pub length-joined :
    (r o : List Event) (b : Bridge) (c : List Event) → length o + length c ≤ length (joined r o b c)
length-joined r o b c = omega (
  arith,
  length-append r (o ++ (held b ++ c)),
  length-append o (held b ++ c),
  length-append (held b) c,
)

joined-offer :
    (r o : List Event) (b : Bridge) (c : List Event) (e : Event)
    → joined r o b (c ++ (e ∷ [])) ≡ joined r o b c ++ (e ∷ [])
joined-offer r o b c e = simp append_assoc

-- An offer that finds room puts the event behind all others.
offered :
    (r o : List Event) (b : Bridge) (c : List Event) (e : Event) (n : ℕ)
    → length (joined r o b c) ≡ n
    → n < event_buf_size
    → joined r o b (offer e c) ≡ joined r o b c ++ (e ∷ [])
offered r o b c e n h k =
    ap (joined r o b) (offer_room e c (omega (arith, length-joined r o b c)))
    ∙ joined-offer r o b c e

module _ (ty : EventType) (since : ℕ) where
  -- One entry in the replay loop.
  replay-one :
      (e : RingEntry) (ch : List Event)
      → ((replay ty since (e ∷ []) ch ≡ ch) × (keep (wanted ty since) (e ∷ []) ≡ []))
        ⊎ ((replay ty since (e ∷ []) ch ≡ offer e.msg ch)
            × (keep (wanted ty since) (e ∷ []) ≡ e ∷ []))
  unfolding replay wanted
  replay-one e ch = elim (Bool-cases (ltb e.t since)) [
    | inl old ↦ inl (rw (old, if◌then◌else◌) refl, rw (old) refl)
    | inr new ↦ elim (Bool-cases (same_type ty (type_of e.msg))) [
      | inl same ↦ inr (rw (new, same) refl, rw (new, same) refl)
      | inr other ↦ inl (rw (new, other) refl, rw (new, other) refl)
    ]
  ]

  keep-cons :
      (e : RingEntry) (entries : List RingEntry)
      → events (keep (wanted ty since) (e ∷ entries))
        ≡ events (keep (wanted ty since) (e ∷ [])) ++ events (keep (wanted ty since) entries)
  keep-cons e entries = elim (Bool-cases (wanted ty since e)) [
    | inl h ↦ rw h refl
    | inr h ↦ rw h refl
  ]

  module _ (seen : List RingEntry) (l : Feed) (v : Ordered ty since seen l) where
    pub replays-Ordered :
        (e : RingEntry) (entries : List RingEntry)
        → l.call ≡ replaying (e ∷ entries)
        → Ordered ty since seen (record l {
          call = replaying entries;
          ch = replay ty since (e ∷ []) l.ch;
          replayed = l.replayed ++ events (keep (wanted ty since) (e ∷ []));
        })
    replays-Ordered e entries p = record {
      merged = elim (replay-one e l.ch) [
        | inl (q, k) ↦ rw (q, k, append-nil) v.merged
        | inr (q, k) ↦
            rw (q, k)
              (λ h.
                let m = v.merged (omega (arith, length-append l.replayed (e.msg ∷ []))) in
                subst (Merge (l.replayed ++ (e.msg ∷ [])) l.live)
                  (sym (
                    offered l.received l.out l.bridge l.ch e.msg (length l.replayed + length l.live)
                      (length-Merge m) (omega (arith, length-append l.replayed (e.msg ∷ [])))))
                  (of_left m e.msg))
      ];
      replays_seen =
          append_assoc l.replayed (events (keep (wanted ty since) (e ∷ [])))
            (events (keep (wanted ty since) entries))
          ∙ ap (λ xs. l.replayed ++ xs) (sym (keep-cons e entries))
          ∙ ap (λ c. l.replayed ++ events (keep (wanted ty since) (pending c))) (sym p)
          ∙ v.replays_seen;
      live_due = v.live_due;
      started = subst (λ c. IsStarted c l.bridge) p v.started;
    }

    pub offers-Ordered :
        (e : Event)
        → l.fan ≡ offering e
        → Ordered ty since seen
            (record l { fan = idle; ch = offer e l.ch; live = l.live ++ (e ∷ []) })
    offers-Ordered e p = record {
      merged = λ h.
          let m = v.merged (omega (arith, length-append l.live (e ∷ []))) in
          subst (Merge l.replayed (l.live ++ (e ∷ [])))
            (sym (
              offered l.received l.out l.bridge l.ch e (length l.replayed + length l.live)
                (length-Merge m) (omega (arith, length-append l.live (e ∷ [])))))
            (of_right m e);
      replays_seen = v.replays_seen;
      live_due = λ s.
          v.live_due s ∙ ap (λ f. l.live ++ in_flight f) p ∙ sym (append-nil (l.live ++ (e ∷ [])));
      started = v.started;
    }

    -- A step that moves events on from one place to the next, and leaves the rest.
    pub moves-Ordered :
        (b : Bridge) (c o r : List Event)
        → IsStarted l.call b
        → (length l.replayed + length l.live ≤ event_buf_size
            → length (given l) ≡ length l.replayed + length l.live
            → joined r o b c ≡ given l)
        → Ordered ty since seen (record l { bridge = b; ch = c; out = o; received = r })
    moves-Ordered b c o r s h = record {
      merged =
          λ k. let m = v.merged k in subst (Merge l.replayed l.live) (sym (h k (length-Merge m))) m;
      replays_seen = v.replays_seen;
      live_due = v.live_due;
      started = s;
    }
