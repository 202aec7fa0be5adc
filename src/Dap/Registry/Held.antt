-- ===== src/Dap/Registry/Held.antt =====
-- A message that the reader has put into a channel stays there until somebody reads it.
use mcp_dap_server_k8s_forwa.Prelude.{
  ℕ, ◌<◌, ◌≡◌, ◌≢◌, refl, List, [], ◌∷◌, Option, none, some, arith, Option-cases, inl, inr, All, ap,
  ◌∙◌,
}
use mcp_dap_server_k8s_forwa.Dap.Message.{Message, Response, response}
use mcp_dap_server_k8s_forwa.Dap.Registry.{
  Registry, find, register, register_if_absent, unregister, take, send, close_chan, close_all,
  close_registry, receive, got,
}
use mcp_dap_server_k8s_forwa.Dap.Registry.Acts.{
  take_into, take_if_idle, deliver, Shared, Act, registers, allocates, unregisters, takes, delivers,
  closes, receives, act, run,
}
use mcp_dap_server_k8s_forwa.Dap.Registry.Inv.{Inv, act-Inv, run-Inv}
use mcp_dap_server_k8s_forwa.Dap.Registry.Pending.{IsFree}

module _ (i : ℕ) where
  -- Steps that do not read channel `i`.
  abbrev pub Unreceived : Act → Type 0
  Unreceived (receives k) = k ≢ i
  Unreceived _ = Unit

  abbrev pub IsHeld : Message → Registry → Type 0
  IsHeld x r = (i < r.next) × ((r.cell i).item ≡ some x)

  module _ (x : Message) where
    IsHeld-register : (k : ℕ) (r : Registry) → IsHeld x r → IsHeld x (register k r)
    unfolding register
    IsHeld-register k r h = ground arith

    IsHeld-register_if_absent :
        (k : ℕ) (r : Registry) → IsHeld x r → IsHeld x (register_if_absent k r).1
    unfolding register_if_absent
    IsHeld-register_if_absent k r h = elim (Option-cases (find k r.responses)) [
      | inl q ↦ rw (q, register_if_absent) (IsHeld-register k r h)
      | inr (j, q) ↦ rw (q, register_if_absent) h
    ]

    IsHeld-take_if_idle :
        (f : Option (ℕ × Message)) (m : Response) (r : Registry)
        → IsHeld x r
        → IsHeld x (take_if_idle f m r).registry
    unfolding take_if_idle take
    IsHeld-take_if_idle (some y) m r h = h
    IsHeld-take_if_idle none m r h = elim (Option-cases (find m.request_seq r.responses)) [
      | inl q ↦ rw (q, take) h
      | inr (j, q) ↦ rw (q, take) h
    ]

    -- Another message goes to another channel: this one is not free.
    IsHeld-deliver :
        (f : Option (ℕ × Message)) (r : Registry)
        → IsFree r f
        → IsHeld x r
        → IsHeld x (deliver f r).1.registry
    unfolding deliver
    IsHeld-deliver none r v h = h
    IsHeld-deliver (some (k, y)) r v h = rw (v.1, send) (ground arith)

    IsHeld-close_chan : (k : ℕ) (r : Registry) → IsHeld x r → IsHeld x (close_chan k r).1
    unfolding close_chan
    IsHeld-close_chan k r h = ground arith

    IsHeld-close_all : (m : List (ℕ × ℕ)) (r : Registry) → IsHeld x r → IsHeld x (close_all m r).1
    unfolding close_all
    IsHeld-close_all [] r h = h
    IsHeld-close_all ((s, k) ∷ m) r h =
        let held = IsHeld-close_chan k (record r { responses = m }) h in
        ground (arith, held, IsHeld-close_all m (close_chan k (record r { responses = m })).1 held)

    IsHeld-receive : (k : ℕ) (r : Registry) → k ≢ i → IsHeld x r → IsHeld x (receive k r).1
    unfolding receive
    IsHeld-receive k r n h = elim (Option-cases (r.cell k).item) [
      | inl q ↦ rw (q, receive) h
      | inr (y, q) ↦ rw (q, receive) (ground arith)
    ]

    IsHeld-act :
        (a : Act) (t : Shared)
        → Inv t
        → Unreceived a
        → IsHeld x t.registry
        → IsHeld x (act a t).1.registry
    unfolding act close_registry
    IsHeld-act (registers k) t v n h = IsHeld-register_if_absent k t.registry h
    IsHeld-act (allocates k) t v n h = IsHeld-register k t.registry h
    IsHeld-act (unregisters k) t v n h = unfold unregister in h
    IsHeld-act (takes m) t v n h = IsHeld-take_if_idle t.flight m t.registry h
    IsHeld-act delivers t v n h = IsHeld-deliver t.flight t.registry v.free h
    IsHeld-act closes t v n h = IsHeld-close_all t.registry.responses t.registry h
    IsHeld-act (receives k) t v n h = IsHeld-receive k t.registry n h

    pub IsHeld-run :
        (acts : List Act) (t : Shared)
        → Inv t
        → All Unreceived acts
        → IsHeld x t.registry
        → IsHeld x (run acts t).1.registry
    unfolding run
    IsHeld-run [] t v n h = h
    IsHeld-run (a ∷ acts) t v n h =
        let (d, w) = act-Inv a t v in
        rw (d, run) (IsHeld-run acts (act a t).1 w n.1 (IsHeld-act a t v n.0 h))

  -- Steps between the reader's critical section and its send: they do not read channel `i`.
  abbrev pub Meanwhile : Act → Type 0
  Meanwhile delivers = ⊥
  Meanwhile (receives k) = k ≢ i
  Meanwhile _ = Unit

  -- The reader holds a message for channel `i`.
  abbrev IsFlying : Message → Shared → Type 0
  IsFlying x t = t.flight ≡ some (i, x)

  flight-take_if_idle :
      (f : Option (ℕ × Message)) (y : ℕ × Message) (m : Response) (r : Registry)
      → f ≡ some y
      → (take_if_idle f m r).flight ≡ some y
  unfolding take_if_idle
  flight-take_if_idle none y m r e = absurd (cc e)
  flight-take_if_idle (some z) y m r e = e

  IsFlying-act :
      (x : Message) (a : Act) (t : Shared) → Meanwhile a → IsFlying x t → IsFlying x (act a t).1
  unfolding act
  IsFlying-act x (registers k) t n h = h
  IsFlying-act x (allocates k) t n h = h
  IsFlying-act x (unregisters k) t n h = h
  IsFlying-act x (takes m) t n h = flight-take_if_idle t.flight (i, x) m t.registry h
  IsFlying-act x delivers t n h = absurd n
  IsFlying-act x closes t n h = h
  IsFlying-act x (receives k) t n h = h

  IsFlying-run :
      (x : Message) (acts : List Act) (t : Shared)
      → Inv t
      → All Meanwhile acts
      → IsFlying x t
      → IsFlying x (run acts t).1
  unfolding run
  IsFlying-run x [] t v n h = h
  IsFlying-run x (a ∷ acts) t v n h =
      let (d, w) = act-Inv a t v in
      rw (d, run) (IsFlying-run x acts (act a t).1 w n.1 (IsFlying-act x a t n.0 h))

  -- The send puts it into the channel, which is open and empty.
  IsHeld-deliver_flight :
      (x : Message) (f : Option (ℕ × Message)) (r : Registry)
      → f ≡ some (i, x)
      → IsFree r f
      → IsHeld x (deliver f r).1.registry
  unfolding deliver
  IsHeld-deliver_flight x none r e v = absurd (cc e)
  IsHeld-deliver_flight x (some (k, y)) r e v =
      let same : k ≡ i = cc e in
      let held : y ≡ x = cc e in rw (v.1, send) (ground (arith, same, held, v.0))

  flight-take :
      (m : Response) (r : Registry)
      → find m.request_seq r.responses ≡ some i
      → (take_into m (take m.request_seq r)).flight ≡ some (i, response m)
  unfolding take_into take
  flight-take m r e = rw (e, take) refl

  take_if_idle_of_none :
      (f : Option (ℕ × Message)) (m : Response) (r : Registry)
      → f ≡ none
      → take_if_idle f m r ≡ take_into m (take m.request_seq r)
  unfolding take_if_idle
  take_if_idle_of_none none m r e = refl
  take_if_idle_of_none (some y) m r e = cc

  -- Taken while the entry is there, and sent after any other steps that do not read the channel.
  pub IsHeld-dispatch :
      (m : Response) (mid : List Act) (t : Shared)
      → Inv t
      → t.flight ≡ none
      → find m.request_seq t.registry.responses ≡ some i
      → All Meanwhile mid
      → IsHeld (response m) (act delivers (run mid (act (takes m) t).1).1).1.registry
  unfolding act
  IsHeld-dispatch m mid t v idle e n =
      let u : Shared = (act (takes m) t).1 in
      let u' : Shared = (run mid u).1 in
      let w = act-Inv (takes m) t v in
      let flying : IsFlying (response m) u =
        ap (λ (q : Shared). q.flight) (take_if_idle_of_none t.flight m t.registry idle)
        ∙ flight-take m t.registry e in
      IsHeld-deliver_flight (response m) u'.flight u'.registry
        (IsFlying-run (response m) mid u w.1 n flying) (run-Inv mid u w.1).1.free

  pub receive-IsHeld : (x : Message) (r : Registry) → IsHeld x r → (receive i r).0 ≡ got x
  unfolding receive
  receive-IsHeld x r h = ground arith
