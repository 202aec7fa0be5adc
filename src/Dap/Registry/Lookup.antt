-- ===== src/Dap/Registry/Lookup.antt =====
-- Which entry of `responses` a request has, through the steps of all goroutines.
use mcp_dap_server_k8s_forwa.Prelude.{
  ℕ, ◌≡◌, ◌≢◌, refl, ◌∙◌, List, [], ◌∷◌, ◌++◌, Option, none, some, arith, Option-cases, inl, inr,
  All,
}
use mcp_dap_server_k8s_forwa.Dap.Message.{Message, Response}
use mcp_dap_server_k8s_forwa.Dap.Registry.{
  Registry, done, find, delete, register, register_if_absent, unregister, take, close_chan,
  close_all, close_registry, receive,
}
use mcp_dap_server_k8s_forwa.Dap.Registry.Acts.{
  take_if_idle, deliver, Shared, Act, registers, allocates, unregisters, takes, delivers, closes,
  receives, act, run,
}
use mcp_dap_server_k8s_forwa.Dap.Registry.Inv.{Inv, act-Inv}

pub run-nil : (t : Shared) → run [] t ≡ (done, t)
unfolding run
run-nil t = refl

pub run-cons :
    (a : Act) (acts : List Act) (t : Shared) → Inv t → run (a ∷ acts) t ≡ run acts (act a t).1
unfolding run
run-cons a acts t v = rw ((act-Inv a t v).0, run)

pub run-append : (xs ys : List Act) (t : Shared) → Inv t → run (xs ++ ys) t ≡ run ys (run xs t).1
unfolding run
run-append [] ys t v = refl
run-append (a ∷ xs) ys t v =
    let (d, w) = act-Inv a t v in rw (d, run) (run-append xs ys (act a t).1 w)

module _ (s : ℕ) where
  -- Steps of others that leave the entry of request `s` alone.
  abbrev pub Untouched : Act → Type 0
  Untouched (registers k) = Unit
  Untouched (allocates k) = k ≢ s
  Untouched (unregisters k) = k ≢ s
  Untouched (takes m) = m.request_seq ≢ s
  Untouched delivers = Unit
  Untouched closes = ⊥
  Untouched (receives i) = Unit

  -- Steps that do not register request `s` (again).
  abbrev pub Unregistering : Act → Type 0
  Unregistering (registers k) = k ≢ s
  Unregistering (allocates k) = k ≢ s
  Unregistering _ = Unit

  pub find-delete_ne : (k : ℕ) (m : List (ℕ × ℕ)) → k ≢ s → find s (delete k m) ≡ find s m
  unfolding find delete
  find-delete_ne k [] h = refl
  find-delete_ne k ((t, i) ∷ m) h = ground (arith, find-delete_ne k m)

  pub find-delete_self : (m : List (ℕ × ℕ)) → find s (delete s m) ≡ none
  unfolding find delete
  find-delete_self [] = refl
  find-delete_self ((t, i) ∷ m) = ground (arith, find-delete_self m)

  pub find-delete-none : (k : ℕ) (m : List (ℕ × ℕ)) → find s m ≡ none → find s (delete k m) ≡ none
  unfolding find delete
  find-delete-none k [] h = refl
  find-delete-none k ((t, i) ∷ m) h = ground (arith, find-delete-none k m)

  pub find-register_ne :
      (k : ℕ) (r : Registry) → k ≢ s → find s (register k r).responses ≡ find s r.responses
  unfolding register find
  find-register_ne k r h = ground (arith, find-delete_ne k r.responses)

  find-register_if_absent :
      (k i : ℕ) (r : Registry)
      → find s r.responses ≡ some i
      → find s (register_if_absent k r).1.responses ≡ some i
  unfolding register_if_absent
  find-register_if_absent k i r e = elim (Option-cases (find k r.responses)) [
    | inl q ↦ rw (q, register_if_absent) (find-register_ne k r (λ w. ground (arith, rw w at q)) ∙ e)
    | inr (j, q) ↦ rw (q, register_if_absent) e
  ]

  responses-deliver :
      (f : Option (ℕ × Message)) (r : Registry) → (deliver f r).1.registry.responses ≡ r.responses
  unfolding deliver
  responses-deliver none r = refl
  responses-deliver (some (k, x)) r = ground arith

  responses-take_if_idle :
      (f : Option (ℕ × Message)) (m : Response) (r : Registry)
      → m.request_seq ≢ s
      → find s (take_if_idle f m r).registry.responses ≡ find s r.responses
  unfolding take_if_idle take
  responses-take_if_idle (some y) m r h = refl
  responses-take_if_idle none m r h = elim (Option-cases (find m.request_seq r.responses)) [
    | inl q ↦ rw (q, take)
    | inr (j, q) ↦ rw (q, take) (find-delete_ne m.request_seq r.responses h)
  ]

  responses-receive : (i : ℕ) (r : Registry) → (receive i r).1.responses ≡ r.responses
  unfolding receive
  responses-receive i r = ground arith

  pub find-unregister_ne :
      (k : ℕ) (r : Registry) → k ≢ s → find s (unregister k r).responses ≡ find s r.responses
  unfolding unregister
  find-unregister_ne k r h = find-delete_ne k r.responses h

  find-unregister-none :
      (k : ℕ) (r : Registry) → find s r.responses ≡ none → find s (unregister k r).responses ≡ none
  unfolding unregister
  find-unregister-none k r h = find-delete-none k r.responses h

  find-register_if_absent-none :
      (k : ℕ) (r : Registry)
      → k ≢ s
      → find s r.responses ≡ none
      → find s (register_if_absent k r).1.responses ≡ none
  unfolding register_if_absent
  find-register_if_absent-none k r h e = elim (Option-cases (find k r.responses)) [
    | inl q ↦ rw (q, register_if_absent) (find-register_ne k r h ∙ e)
    | inr (j, q) ↦ rw (q, register_if_absent) e
  ]

  find-take_if_idle-none :
      (f : Option (ℕ × Message)) (m : Response) (r : Registry)
      → find s r.responses ≡ none
      → find s (take_if_idle f m r).registry.responses ≡ none
  unfolding take_if_idle take
  find-take_if_idle-none (some y) m r e = e
  find-take_if_idle-none none m r e = elim (Option-cases (find m.request_seq r.responses)) [
    | inl q ↦ rw (q, take) e
    | inr (j, q) ↦ rw (q, take) (find-delete-none m.request_seq r.responses e)
  ]

  find-close_all-none :
      (m : List (ℕ × ℕ)) (r : Registry)
      → find s m ≡ none
      → find s (close_all m r).1.responses ≡ none
  unfolding close_all find
  find-close_all-none [] r e = refl
  find-close_all-none ((k, i) ∷ m) r e =
      ground (arith, find-close_all-none m (close_chan i (record r { responses = m })).1)

  find-act :
      (a : Act) (t : Shared) (i : ℕ)
      → Untouched a
      → find s t.registry.responses ≡ some i
      → find s (act a t).1.registry.responses ≡ some i
  unfolding act
  find-act (registers k) t i h e = find-register_if_absent k i t.registry e
  find-act (allocates k) t i h e = find-register_ne k t.registry h ∙ e
  find-act (unregisters k) t i h e = find-unregister_ne k t.registry h ∙ e
  find-act (takes m) t i h e = responses-take_if_idle t.flight m t.registry h ∙ e
  find-act delivers t i h e = rw (responses-deliver t.flight t.registry) e
  find-act closes t i h e = absurd h
  find-act (receives k) t i h e = rw (responses-receive k t.registry) e

  find-act-none :
      (a : Act) (t : Shared)
      → Unregistering a
      → find s t.registry.responses ≡ none
      → find s (act a t).1.registry.responses ≡ none
  unfolding act close_registry
  find-act-none (registers k) t h e = find-register_if_absent-none k t.registry h e
  find-act-none (allocates k) t h e = find-register_ne k t.registry h ∙ e
  find-act-none (unregisters k) t h e = find-unregister-none k t.registry e
  find-act-none (takes m) t h e = find-take_if_idle-none t.flight m t.registry e
  find-act-none delivers t h e = rw (responses-deliver t.flight t.registry) e
  find-act-none closes t h e = find-close_all-none t.registry.responses t.registry e
  find-act-none (receives k) t h e = rw (responses-receive k t.registry) e

  pub find-run :
      (acts : List Act) (t : Shared) (i : ℕ)
      → Inv t
      → All Untouched acts
      → find s t.registry.responses ≡ some i
      → find s (run acts t).1.registry.responses ≡ some i
  unfolding run
  find-run [] t i v h e = e
  find-run (a ∷ acts) t i v h e =
      let (d, w) = act-Inv a t v in
      rw (d, run) (find-run acts (act a t).1 i w h.1 (find-act a t i h.0 e))

  pub find-run-none :
      (acts : List Act) (t : Shared)
      → Inv t
      → All Unregistering acts
      → find s t.registry.responses ≡ none
      → find s (run acts t).1.registry.responses ≡ none
  unfolding run
  find-run-none [] t v h e = e
  find-run-none (a ∷ acts) t v h e =
      let (d, w) = act-Inv a t v in
      rw (d, run) (find-run-none acts (act a t).1 w h.1 (find-act-none a t h.0 e))

  find-take_self :
      (f : Option (ℕ × Message)) (m : Response) (r : Registry)
      → f ≡ none
      → m.request_seq ≡ s
      → find s (take_if_idle f m r).registry.responses ≡ none
  unfolding take_if_idle take
  find-take_self (some y) m r idle e = cc
  find-take_self none m r idle e = elim (Option-cases (find m.request_seq r.responses)) [
    | inl q ↦ rw (q, take) (rw e at q)
    | inr (j, q) ↦ rw (q, take) (rw e (find-delete_self r.responses))
  ]

  pub find-act_takes :
      (m : Response) (t : Shared)
      → t.flight ≡ none
      → m.request_seq ≡ s
      → find s (act (takes m) t).1.registry.responses ≡ none
  unfolding act
  find-act_takes m t idle e = find-take_self t.flight m t.registry idle e
