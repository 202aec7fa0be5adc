-- ===== src/Dap/Bus/Replay.antt =====
-- What a new subscription finds in its channel: the recent events of its type, none dropped.
use mcp_dap_server_k8s_forwa.Prelude.{
  ℕ, ◌+◌, ◌≤◌, ◌<◌, ◌≡◌, ◌∙◌, List, [], ◌∷◌, ◌++◌, Bool, not, ◌&&◌, if◌then◌else◌, ltb, length,
  keep, keep_last, length-keep_last, length-append, map, append-nil, append_assoc, arith,
  Bool-cases, inl, inr,
}
use mcp_dap_server_k8s_forwa.Dap.Message.{Event}
use mcp_dap_server_k8s_forwa.Dap.Ring.{new_event_ring, snapshot}
use mcp_dap_server_k8s_forwa.Dap.Ring.Replay.{push_all, snapshot-push_all}
use mcp_dap_server_k8s_forwa.Dap.Bus.{
  EventType, type_of, same_type, RingEntry, zero_entry, event_buf_size, offer, replay,
}

-- The events that a subscription of type `ty` from time `since` on is to see.
unfoldable pub wanted : EventType → ℕ → RingEntry → Bool
wanted ty since e = not (ltb e.t since) && same_type ty (type_of e.msg)

abbrev pub events : List RingEntry → List Event
events = map (λ (e : RingEntry). e.msg)

pub offer_room :
    (e : Event) (ch : List Event) → length ch < event_buf_size → offer e ch ≡ ch ++ (e ∷ [])
unfolding offer
offer_room e ch h = ground arith

module _ (ty : EventType) (since : ℕ) where
  length-keep :
      (entries : List RingEntry) → length (keep (wanted ty since) entries) ≤ length entries
  length-keep [] = omega arith
  length-keep (e ∷ entries) = ground (arith, length-keep entries)

  -- With room for all entries none is dropped.
  replay_room :
      (entries : List RingEntry) (ch : List Event)
      → length ch + length entries ≤ event_buf_size
      → replay ty since entries ch ≡ ch ++ events (keep (wanted ty since) entries)
  unfolding replay wanted
  replay_room [] ch h = rw append-nil
  replay_room (e ∷ entries) ch h = elim (Bool-cases (ltb e.t since)) [
    | inl old ↦ rw (old, if◌then◌else◌) (replay_room entries ch (omega arith))
    | inr new ↦ elim (Bool-cases (same_type ty (type_of e.msg))) [
      | inl same ↦
          rw (new, same, offer_room e.msg ch (omega arith))
            (replay_room entries (ch ++ (e.msg ∷ [])) (omega (arith, length-append ch (e.msg ∷ [])))
              ∙ append_assoc ch (e.msg ∷ []) _)
      | inr other ↦ rw (new, other) (replay_room entries ch (omega arith))
    ]
  ]

  -- After any events at all, a new subscription has in its channel exactly those of its type and
  -- time among the last 64, in their order: the replay never finds the buffer full.
  pub replay-snapshot :
      (history : List RingEntry)
      → replay ty since
          (snapshot zero_entry (push_all (new_event_ring zero_entry event_buf_size) history))
          []
        ≡ events (keep (wanted ty since) (keep_last event_buf_size history))
  replay-snapshot history =
      rw (snapshot-push_all zero_entry event_buf_size history (omega arith) (omega arith)) (
        replay_room (keep_last event_buf_size history) []
          (omega (arith, length-keep_last event_buf_size history)))
