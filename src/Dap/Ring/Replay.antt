-- ===== src/Dap/Ring/Replay.antt =====
-- What a run of `push` leaves for `Subscribe` to replay.
use mcp_dap_server_k8s_forwa.Prelude.{
  ℕ, ◌-◌, ◌^◌, ◌<◌, ◌≡◌, ap, ◌∙◌, List, [], ◌∷◌, ◌++◌, append_assoc, append-nil, drop-append, arith,
  length, keep_last, keep_last-append, length-append,
}
use native.Mathlib.Decide.{dec_lt}
use mcp_dap_server_k8s_forwa.Dap.Ring.{EventRing, new_event_ring, push, snapshot}
use mcp_dap_server_k8s_forwa.Dap.Ring.Refine.{
  IsValid, new_event_ring-IsValid, push-IsValid, contents, length-contents, snapshot-eq-contents,
  contents-push_room, contents-push_full, cap-push, contents-new_event_ring,
}

module _ {ℓ} {A : Type ℓ} where
  unfoldable pub push_all : EventRing A → List A → EventRing A
  push_all r [] = r
  push_all r (e ∷ es) = push_all (push r e) es

  push_all-IsValid : (es : List A) {r : EventRing A} → IsValid r → IsValid (push_all r es)
  unfolding push_all
  push_all-IsValid [] v = v
  push_all-IsValid (e ∷ es) v = push_all-IsValid es (push-IsValid e v)

module _ {ℓ} {A : Type ℓ} (z : A) where
  -- One push keeps the last `cap` entries of the old contents and the new entry.
  pub contents-push :
      {r : EventRing A} (e : A)
      → IsValid r
      → contents z (push r e) ≡ keep_last r.cap (contents z r ++ (e ∷ []))
  contents-push {r} e v = elim (dec_lt r.size r.cap) [
    | yes room ↦
        let k : length (contents z r ++ (e ∷ [])) - r.cap ≡ 0 =
          omega (arith, length-append (contents z r) (e ∷ []), length-contents z r) in
        rw k (contents-push_room z e v room)
    | no full ↦
        let k : length (contents z r ++ (e ∷ [])) - r.cap ≡ 1 =
          omega (arith, length-append (contents z r) (e ∷ []), length-contents z r) in
        rw (k, drop-append 1 (contents z r) (e ∷ []) (omega (arith, length-contents z r)))
          (contents-push_full z e v (omega arith))
  ]

  contents-push_all :
      (es : List A) {r : EventRing A}
      → IsValid r
      → contents z (push_all r es) ≡ keep_last r.cap (contents z r ++ es)
  unfolding push_all
  contents-push_all [] {r} v =
      let k : length (contents z r ++ []) - r.cap ≡ 0 =
        omega (arith, length-append (contents z r) [], length-contents z r) in
      rw (k, append-nil)
  contents-push_all (e ∷ es) {r} v = rw (
    contents-push_all es (push-IsValid e v),
    contents-push e v,
    cap-push r e,
    keep_last-append,
    append_assoc,
  )

  snapshot_of_empty :
      (es : List A) {r : EventRing A}
      → IsValid r
      → contents z r ≡ []
      → snapshot z (push_all r es) ≡ keep_last r.cap es
  snapshot_of_empty es {r} v e =
      snapshot-eq-contents z (push_all-IsValid es v)
      ∙ contents-push_all es v
      ∙ ap (λ c. keep_last r.cap (c ++ es)) e

  -- After any events at all, the snapshot of a new ring of capacity `n` is the last `n` of them, in
  -- order. The capacity is positive and below 2^62.
  pub snapshot-push_all :
      (n : ℕ) (es : List A)
      → 0 < n
      → n < 2 ^ 62
      → snapshot z (push_all (new_event_ring z n) es) ≡ keep_last n es
  unfolding new_event_ring
  snapshot-push_all n es h k =
      snapshot_of_empty es (new_event_ring-IsValid z n h k) (contents-new_event_ring z n)
