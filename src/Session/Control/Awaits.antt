-- ===== src/Session/Control/Awaits.antt =====
-- tools.go: what the replay leaves out of a wait.
use mcp_dap_server_k8s_forwa.Prelude.{
  zero, suc, if◌then◌else◌, ℕ, ◌≡◌, ◌<◌, refl, ap, ◌∙◌, List, [], ◌∷◌, keep_last, drop, arith,
  lt→ltb,
}
use mcp_dap_server_k8s_forwa.Dap.Message.{Event}
use mcp_dap_server_k8s_forwa.Dap.Ring.{new_event_ring, snapshot}
use mcp_dap_server_k8s_forwa.Dap.Ring.Replay.{push_all, snapshot-push_all}
use mcp_dap_server_k8s_forwa.Dap.Bus.{Bus, EventType, RingEntry, zero_entry, event_buf_size, replay}

-- What `Subscribe` replays to a subscription of type `ty` from `since` on.
abbrev pub replayed : EventType → ℕ → Bus → List Event
replayed ty since b = replay ty since (snapshot zero_entry b.replay_ring) []

-- Every entry is older than `now`.
abbrev pub IsBefore : ℕ → List RingEntry → Type 0
IsBefore now [] = Unit
IsBefore now (e ∷ entries) = (e.t < now) × IsBefore now entries

drop-IsBefore :
    (now n : ℕ) (entries : List RingEntry) → IsBefore now entries → IsBefore now (drop n entries)
drop-IsBefore now zero entries h = h
drop-IsBefore now (suc n) [] h = tt
drop-IsBefore now (suc n) (e ∷ entries) h = drop-IsBefore now n entries h.1

replay-IsBefore :
    (ty : EventType) (now : ℕ) (entries : List RingEntry) (ch : List Event)
    → IsBefore now entries
    → replay ty now entries ch ≡ ch
unfolding replay
replay-IsBefore ty now [] ch h = refl
replay-IsBefore ty now (e ∷ entries) ch h =
    rw (lt→ltb e.t now h.0, if◌then◌else◌) (replay-IsBefore ty now entries ch h.1)

-- A ring that holds only entries older than `now` replays nothing from `now` on.
pub replayed-IsBefore :
    (ty : EventType) (now : ℕ) (b : Bus) (history : List RingEntry)
    → b.replay_ring ≡ push_all (new_event_ring zero_entry event_buf_size) history
    → IsBefore now history
    → replayed ty now b ≡ []
replayed-IsBefore ty now b history h k =
    ap (λ r. replay ty now (snapshot zero_entry r) []) h
    ∙ ap (λ es. replay ty now es [])
        (snapshot-push_all zero_entry event_buf_size history (omega arith) (omega arith))
    ∙ replay-IsBefore ty now (keep_last event_buf_size history) [] (drop-IsBefore now _ history k)
