-- ===== src/Dap/Client/Sending.antt =====
-- What the registering sends do, on every branch.
use mcp_dap_server_k8s_forwa.Prelude.{
  ℕ, ◌+◌, ◌^◌, ◌<◌, ◌≡◌, ◌≢◌, refl, sym, ap, subst, ◌∙◌, String, [], ◌∷◌, ◌++◌, Option, none, some,
  Bool, true, false, if_true, if_false, ◌==◌, arith, inc_int, Bool-cases, Option-cases, inl, inr,
  ==_iff,
}
use mcp_dap_server_k8s_forwa.Dap.Request.{Command, Request}
use mcp_dap_server_k8s_forwa.Dap.Registry.{Registry, find, register, register_if_absent, unregister}
use mcp_dap_server_k8s_forwa.Dap.Registry.Lookup.{
  find-delete_self, find-register_ne, find-unregister_ne,
}
use mcp_dap_server_k8s_forwa.Dap.Client.{
  Client, connection_stale, write_error, new_request, mark_stale, send_and_register,
  send_and_register_raw, send_request, drop_registration, with_registry, raw_send,
}

find-register_self : (s : ℕ) (r : Registry) → find s (register s r).responses ≡ some r.next
unfolding register find
find-register_self s r = ground arith

find-unregister_self : (s : ℕ) (r : Registry) → find s (unregister s r).responses ≡ none
unfolding unregister
find-unregister_self s r = find-delete_self s r.responses

-- Registering if absent gives the request a channel.
find-register_if_absent_self :
    (s : ℕ) (r : Registry) → (i : ℕ) × (find s (register_if_absent s r).1.responses ≡ some i)
unfolding register_if_absent
find-register_if_absent_self s r = elim (Option-cases (find s r.responses)) [
  | inl e ↦ (r.next, rw (e, register_if_absent) (find-register_self s r))
  | inr (i, e) ↦ (i, rw (e, register_if_absent) e)
]

abbrev SameEntries : Registry → Registry → Type 0
SameEntries r r' = (k : ℕ) → find k r'.responses ≡ find k r.responses

find-unregister-register :
    (s k : ℕ) (r : Registry)
    → find s r.responses ≡ none
    → find k (unregister s (register s r)).responses ≡ find k r.responses
find-unregister-register s k r absent = elim (Bool-cases (s == k)) [
  | inl same ↦
      let e : s ≡ k = (==_iff s k).0 same in
      subst (λ j. find j (unregister s (register s r)).responses ≡ find j r.responses) e
        (find-unregister_self s (register s r) ∙ sym absent)
  | inr other ↦
      let ne : s ≢ k = λ e. ground (arith, e) in
      find-unregister_ne k s (register s r) ne ∙ find-register_ne k s r ne
]

-- Dropping what was newly registered leaves the map as it was.
drop-register_if_absent :
    (s : ℕ) (c : Client)
    → let (newly, r) = register_if_absent s c.registry in
      let c' = record (with_registry r c) { torn = true } in
      SameEntries c.registry (drop_registration newly s c').registry
unfolding register_if_absent drop_registration
drop-register_if_absent s c k = elim (Option-cases (find s c.registry.responses)) [
  | inl e ↦ rw (e, register_if_absent) (find-unregister-register s k c.registry e)
  | inr (i, e) ↦ rw (e, register_if_absent)
]

-- On a stale connection nothing is done.
pub send_and_register-stale :
    (written : Option String) (s : ℕ) (req : Request) (c : Client)
    → c.stale ≡ true
    → send_and_register written s req c ≡ (some connection_stale, c)
unfolding send_and_register
send_and_register-stale written s req c h = if_true _ _ h

flags-drop_registration :
    (newly : Bool) (s : ℕ) (c : Client)
    → let c' = drop_registration newly s c in
      (c'.stale ≡ c.stale)
      × (c'.reconn_ch ≡ c.reconn_ch)
      × (c'.seq ≡ c.seq)
      × (c'.wire ≡ c.wire)
      × (c'.torn ≡ c.torn)
unfolding drop_registration
flags-drop_registration true s c = (refl, refl, refl, refl, refl)
flags-drop_registration false s c = (refl, refl, refl, refl, refl)

-- The two ways that a send on a connection that is not stale can go.
send_and_register-written :
    (s : ℕ) (req : Request) (c : Client)
    → c.stale ≡ false
    → send_and_register none s req c ≡ (
      none,
      record (with_registry (register_if_absent s c.registry).1 c) { wire = c.wire ++ (req ∷ []) },
    )
unfolding send_and_register raw_send
send_and_register-written s req c h = if_false _ _ h

send_and_register-failed :
    (x : String) (s : ℕ) (req : Request) (c : Client)
    → c.stale ≡ false
    → send_and_register (some x) s req c ≡ (
        let (newly, r) = register_if_absent s c.registry in
        let c' = record (with_registry r c) { torn = true } in
        (some (write_error x), mark_stale (drop_registration newly s c')))
unfolding send_and_register raw_send
send_and_register-failed x s req c h = if_false _ _ h

-- A send on a connection that is not stale, when the write succeeds: the request is on the wire
-- once, behind what was there, its response has a channel, and the flags stay down.
pub send_and_register-ok :
    (s : ℕ) (req : Request) (c : Client)
    → c.stale ≡ false
    → let (e, c') = send_and_register none s req c in
      (e ≡ none)
      × (c'.wire ≡ c.wire ++ (req ∷ []))
      × ((i : ℕ) × (find s c'.registry.responses ≡ some i))
      × (c'.stale ≡ false)
      × (c'.reconn_ch ≡ c.reconn_ch)
      × (c'.seq ≡ c.seq)
send_and_register-ok s req c h =
    rw (send_and_register-written s req c h)
      (refl, refl, find-register_if_absent_self s c.registry, h, refl, refl)

fail_flags :
    (c : Client)
    → c.stale ≡ false
    → ((mark_stale c).stale ≡ true) × ((mark_stale c).reconn_ch ≡ true)
unfolding mark_stale
fail_flags c h = (ground arith, ground arith)

rest-mark_stale :
    (c : Client)
    → ((mark_stale c).wire ≡ c.wire)
      × ((mark_stale c).registry ≡ c.registry)
      × ((mark_stale c).torn ≡ c.torn)
unfolding mark_stale
rest-mark_stale c = (ground arith, ground arith, ground arith)

-- When the write fails on a connection that is not stale: the error is returned, every entry of the
-- registry is as it was, the messages that were written in full are the same ones, the socket is
-- noted as torn (a part of the message may be on it), and the connection is marked stale with the
-- reconnect loop signalled.
pub send_and_register-fails :
    (x : String) (s k : ℕ) (req : Request) (c : Client)
    → c.stale ≡ false
    → let (e, c') = send_and_register (some x) s req c in
      (e ≡ some (write_error x))
      × (c'.wire ≡ c.wire)
      × (find k c'.registry.responses ≡ find k c.registry.responses)
      × (c'.torn ≡ true)
      × (c'.stale ≡ true)
      × (c'.reconn_ch ≡ true)
send_and_register-fails x s k req c h =
    let (newly, r) = register_if_absent s c.registry in
    let c' = record (with_registry r c) { torn = true } in
    let d = drop_registration newly s c' in
    let w = flags-drop_registration newly s c' in
    let f = fail_flags d (w.0 ∙ h) in
    rw (send_and_register-failed x s req c h) (
      refl,
      (rest-mark_stale d).0 ∙ w.3,
      ap (λ q. find k q.responses) (rest-mark_stale d).1 ∙ drop-register_if_absent s c k,
      (rest-mark_stale d).2 ∙ w.4,
      f.0,
      f.1,
    )

-- The raw send does the same past the stale check, and marks nothing.
pub send_and_register_raw-fails :
    (x : String) (s k : ℕ) (req : Request) (c : Client)
    → let (e, c') = send_and_register_raw (some x) s req c in
      (e ≡ some (write_error x))
      × (c'.wire ≡ c.wire)
      × (find k c'.registry.responses ≡ find k c.registry.responses)
      × (c'.stale ≡ c.stale)
      × (c'.reconn_ch ≡ c.reconn_ch)
unfolding send_and_register_raw raw_send
send_and_register_raw-fails x s k req c =
    let (newly, r) = register_if_absent s c.registry in
    let w = flags-drop_registration newly s (record (with_registry r c) { torn = true }) in
    (refl, w.3, drop-register_if_absent s c k, w.0, w.1)

-- When the write succeeds and the sequence number does not wrap, `SendRequest` after `newRequest`
-- registers the number after the one that it writes: the response to the message finds no entry of
-- its own.
pub send_request-unmatched :
    (cmd : Command) (c : Client)
    → c.seq + 1 < 2 ^ 64
    → let (msg, c1) = new_request cmd c in
      let (res, c2) = send_request none msg c1 in
      (c2.wire ≡ c.wire ++ (msg ∷ []))
      × (res.1 ≡ msg.seq + 1)
      × (find msg.seq c2.registry.responses ≡ find msg.seq c.registry.responses)
unfolding new_request send_request raw_send
send_request-unmatched cmd c h =
    (refl, omega arith, find-register_ne c.seq (inc_int c.seq) c.registry (omega arith))
