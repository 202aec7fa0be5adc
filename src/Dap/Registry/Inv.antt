-- ===== src/Dap/Registry/Inv.antt =====
-- Every pending channel is open and empty, no two entries share one, and the reader's channel is
-- in no entry: so no send blocks, and nothing is closed twice.
use mcp_dap_server_k8s_forwa.Prelude.{
  ℕ, ◌≡◌, refl, List, [], ◌∷◌, Option, none, some, true, arith, Option-cases, inl, inr,
}
use mcp_dap_server_k8s_forwa.Dap.Message.{Message, Response}
use mcp_dap_server_k8s_forwa.Dap.Registry.{
  Chan, Registry, done, empty_registry, open_chan, update, find, delete, register,
  register_if_absent, unregister, take, send, close_chan, close_all, close_registry, receive,
}
use mcp_dap_server_k8s_forwa.Dap.Registry.Acts.{
  take_into, take_if_idle, deliver, Shared, Act, registers, allocates, unregisters, takes, delivers,
  closes, receives, act, run,
}
use mcp_dap_server_k8s_forwa.Dap.Registry.Pending.{
  Pending, Apart, IsFree, find-Pending, Apart-delete, Pending-mono, Pending-delete,
  Pending-update_above, Pending-update-Apart,
}

pub record Inv (t : Shared) : Type 0 where
  pub pending : Pending t.registry.cell t.registry.next t.registry.responses
  pub free : IsFree t.registry t.flight

abbrev pub start : Shared
start = record { registry = empty_registry; flight = none }

start-Inv : Inv start
unfolding empty_registry
start-Inv = record { pending = tt; free = tt }

module _ (s : ℕ) (r : Registry) (p : Pending r.cell r.next r.responses) where
  Pending-register : let r' = register s r in Pending r'.cell r'.next r'.responses
  unfolding register
  Pending-register = (
    omega arith,
    ground arith,
    Pending-update_above r.cell r.next r.next open_chan (delete s r.responses) (omega arith)
        (Pending-delete r.cell s r.next r.responses p),
  )

  IsFree-register : (f : Option (ℕ × Message)) → IsFree r f → IsFree (register s r) f
  unfolding register
  IsFree-register none h = tt
  IsFree-register (some (i, m)) h =
      (omega arith, ground arith, (omega arith, Apart-delete s i r.responses h.2))

  IsFree-unregister : (f : Option (ℕ × Message)) → IsFree r f → IsFree (unregister s r) f
  unfolding unregister
  IsFree-unregister none h = tt
  IsFree-unregister (some (i, m)) h = (h.0, h.1, Apart-delete s i r.responses h.2)

register-Inv : (s : ℕ) (t : Shared) → Inv t → Inv (record t { registry = register s t.registry })
register-Inv s t v = record {
  pending = Pending-register s t.registry v.pending;
  free = IsFree-register s t.registry v.pending t.flight v.free;
}

register_if_absent-Inv :
    (s : ℕ) (t : Shared) → Inv t → Inv (record t { registry = (register_if_absent s t.registry).1 })
unfolding register_if_absent
register_if_absent-Inv s t v = elim (Option-cases (find s t.registry.responses)) [
  | inl e ↦ rw (e, register_if_absent) (register-Inv s t v)
  | inr (i, e) ↦ rw (e, register_if_absent) v
]

unregister-Inv :
    (s : ℕ) (t : Shared) → Inv t → Inv (record t { registry = unregister s t.registry })
unfolding unregister
unregister-Inv s t v = record {
  pending = Pending-delete t.registry.cell s t.registry.next t.registry.responses v.pending;
  free = IsFree-unregister s t.registry v.pending t.flight v.free;
}

take_into-Inv :
    (m : Response) (r : Registry)
    → Pending r.cell r.next r.responses
    → Inv (take_into m (take m.request_seq r))
unfolding take_into take
take_into-Inv m r p = elim (Option-cases (find m.request_seq r.responses)) [
  | inl e ↦ rw (e, take) (record { pending = p; free = tt })
  | inr (i, e) ↦
      rw (e, take)
        (record {
          pending = Pending-delete r.cell m.request_seq r.next r.responses p;
          free = find-Pending r.cell m.request_seq r.next i r.responses p e;
        })
]

take_if_idle-Inv :
    (f : Option (ℕ × Message)) (m : Response) (r : Registry)
    → Inv (record { registry = r; flight = f })
    → Inv (take_if_idle f m r)
unfolding take_if_idle
take_if_idle-Inv none m r v = take_into-Inv m r v.pending
take_if_idle-Inv (some f) m r v = v

-- The send of `dispatchResponse` finds an open, empty channel: it is done at once.
deliver-Inv :
    (f : Option (ℕ × Message)) (r : Registry)
    → Inv (record { registry = r; flight = f })
    → ((deliver f r).0 ≡ done) × Inv (deliver f r).1
unfolding deliver
deliver-Inv none r v = (refl, v)
deliver-Inv (some (i, m)) r v =
    rw (v.free.1, send)
      (
        refl,
        record {
          pending = Pending-update-Apart r.cell r.next i _ r.responses v.free.2 v.pending;
          free = tt;
        },
      )

-- One round of the loop, on an open channel.
pub close_all-cons :
    (s i : ℕ) (m : List (ℕ × ℕ)) (r : Registry)
    → r.cell i ≡ open_chan
    → close_all ((s, i) ∷ m) r
      ≡ close_all m (record r {
        responses = m;
        cell = update r.cell i (record { item = none; closed = true });
      })
unfolding close_all
close_all-cons s i m r e = rw (e, close_all) (rw (e, close_chan))

IsFree-close :
    (s i : ℕ) (m : List (ℕ × ℕ)) (r : Registry) (c : Chan) (f : Option (ℕ × Message))
    → IsFree (record r { responses = (s, i) ∷ m }) f
    → IsFree (record r { responses = m; cell = update r.cell i c }) f
IsFree-close s i m r c none h = tt
IsFree-close s i m r c (some (k, x)) h = (h.0, ground arith, h.2.1)

module _ (f : Option (ℕ × Message)) where
  close_all-Inv :
      (m : List (ℕ × ℕ)) (r : Registry)
      → Pending r.cell r.next m
      → IsFree (record r { responses = m }) f
      → ((close_all m r).0 ≡ done) × Inv (record { registry = (close_all m r).1; flight = f })
  close_all-Inv [] r p h = unfold close_all in (refl, record { pending = tt; free = h })
  close_all-Inv ((s, i) ∷ m) r p h =
      let c : Chan = record { item = none; closed = true } in
      let r1 : Registry = record r { responses = m; cell = update r.cell i c } in
      let later =
        close_all-Inv m r1
          (Pending-mono (update r.cell i c) i r.next m (omega arith)
            (Pending-update_above r.cell i i c m (omega arith) p.2))
          (IsFree-close s i m r c f h) in
      rw (close_all-cons s i m r p.1) later

pub close_registry-Inv :
    (f : Option (ℕ × Message)) (r : Registry)
    → Inv (record { registry = r; flight = f })
    → ((close_registry r).0 ≡ done) × Inv (record { registry = (close_registry r).1; flight = f })
unfolding close_registry
close_registry-Inv f r v = close_all-Inv f r.responses r v.pending v.free

-- A channel that holds a message is no pending one.
Apart-of_item :
    (cell : ℕ → Chan) (n i : ℕ) (x : Message) (m : List (ℕ × ℕ))
    → (cell i).item ≡ some x
    → Pending cell n m
    → Apart i m
Apart-of_item cell n i x [] e p = tt
Apart-of_item cell n i x ((s, k) ∷ m) e p =
    (λ q. ground (arith, rw q at (p.1)), Apart-of_item cell k i x m e p.2)

IsFree-of_item :
    (i : ℕ) (x : Message) (c : Chan) (r : Registry) (f : Option (ℕ × Message))
    → (r.cell i).item ≡ some x
    → IsFree r f
    → IsFree (record r { cell = update r.cell i c }) f
IsFree-of_item i x c r none e h = tt
IsFree-of_item i x c r (some (k, y)) e h = (h.0, ground arith, h.2)

receive-Inv :
    (i : ℕ) (f : Option (ℕ × Message)) (r : Registry)
    → Inv (record { registry = r; flight = f })
    → Inv (record { registry = (receive i r).1; flight = f })
unfolding receive
receive-Inv i f r v = elim (Option-cases (r.cell i).item) [
  | inl e ↦ rw (e, receive) v
  | inr (x, e) ↦
      rw (e, receive)
        (record {
          pending =
              Pending-update-Apart r.cell r.next i _ r.responses
                (Apart-of_item r.cell r.next i x r.responses e v.pending) v.pending;
          free = IsFree-of_item i x _ r f e v.free;
        })
]

-- Every step of every goroutine is done at once, without a panic, and keeps the invariant.
pub act-Inv : (a : Act) (t : Shared) → Inv t → ((act a t).0 ≡ done) × Inv (act a t).1
unfolding act
act-Inv (registers s) t v = (refl, register_if_absent-Inv s t v)
act-Inv (allocates s) t v = (refl, register-Inv s t v)
act-Inv (unregisters s) t v = (refl, unregister-Inv s t v)
act-Inv (takes m) t v = (refl, take_if_idle-Inv t.flight m t.registry v)
act-Inv delivers t v = deliver-Inv t.flight t.registry v
act-Inv closes t v = close_registry-Inv t.flight t.registry v
act-Inv (receives i) t v = (refl, receive-Inv i t.flight t.registry v)

-- From any state in which the invariant holds, and whatever the order of the steps: all of them are
-- done (no send blocks, none meets a closed channel, no channel is closed twice), and the invariant
-- holds at the end.
pub run-Inv : (acts : List Act) (t : Shared) → Inv t → ((run acts t).0 ≡ done) × Inv (run acts t).1
unfolding run
run-Inv [] t v = (refl, v)
run-Inv (a ∷ acts) t v = let w = act-Inv a t v in rw (w.0, run) (run-Inv acts (act a t).1 w.1)
