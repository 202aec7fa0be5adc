-- ===== src/Tests/Feeds.antt =====
-- A subscription of dap.go at work, on concrete inputs.
use mcp_dap_server_k8s_forwa.Prelude.{
  ◌≡◌, ◌≤◌, ◌+◌, ◌⊎◌, refl, List, [], ◌∷◌, true, false, pos, arith,
}
use mcp_dap_server_k8s_forwa.Dap.Message.{Event, stopped}
use mcp_dap_server_k8s_forwa.Dap.Bus.{RingEntry, stopped_type, same_type, type_of, offer, replay}
use mcp_dap_server_k8s_forwa.Dap.Bus.Replay.{wanted}
use mcp_dap_server_k8s_forwa.Dap.Bus.Feed.{
  Feed, new_feed, subscribed, removed, idle, choosing, gone, is_registered, Step, Run, still, acts,
  Reach, here, next, reads, registers, replays, starts_bridge, copies, checks, offers, takes, hands,
  sees_stop, drains, returns, removes, stops, run_length,
}
use mcp_dap_server_k8s_forwa.Dap.Bus.Feed.Ending.{IsOver, steps_left, Run-ends}
use mcp_dap_server_k8s_forwa.Dap.Bus.Feed.Stuck.{IsStuck, Reach-IsStuck}

abbrev old_stop : Event
old_stop = stopped "pause" (pos 1)

abbrev new_stop : Event
new_stop = stopped "breakpoint" (pos 1)

abbrev one_entry : List RingEntry
one_entry = record { t = 5; msg = old_stop } ∷ []

-- The fan-out of a new event gets ahead of the replay, and the first of the two is read.
abbrev one_read : Feed
one_read = record {
  call = subscribed;
  fan = idle;
  bridge = choosing;
  ch = old_stop ∷ [];
  out = [];
  stop = false;
  received = new_stop ∷ [];
  replayed = old_stop ∷ [];
  live = new_stop ∷ [];
  due = new_stop ∷ [];
}

live_first : Reach stopped_type 0 (new_feed one_entry) one_read
unfolding is_registered same_type type_of offer replay wanted
live_first =
    let r1 = next here (registers one_entry refl) in
    let r2 =
      next (next (next r1 (copies new_stop refl refl refl)) (checks new_stop refl refl))
        (offers new_stop refl) in
    let r3 =
      next (next r2 (replays (record { t = 5; msg = old_stop }) [] refl)) (starts_bridge refl) in
    reads
      (next (next r3 (takes new_stop (old_stop ∷ []) refl refl))
        (hands new_stop refl (omega arith)))
      new_stop [] refl

abbrev at_cancel : Feed
at_cancel = record one_read { call = removed; stop = true }

abbrev at_end : Feed
at_end = record at_cancel { bridge = gone; ch = []; out = old_stop ∷ [] }

cancelled : Reach stopped_type 0 (new_feed one_entry) at_cancel
cancelled = next (next live_first (removes refl)) (stops refl refl)

ending : Run stopped_type 0 at_cancel at_end
unfolding offer
ending =
    acts (acts (acts still (sees_stop refl refl)) (drains old_stop [] refl refl))
      (returns refl refl)

Run-ends_example :
    (run_length ending + steps_left at_end ≤ steps_left at_cancel)
    × (IsOver at_end ⊎ ((m : Feed) × Step stopped_type 0 at_end m))
Run-ends_example = Run-ends stopped_type 0 one_entry cancelled refl ending

is_a_stop : same_type stopped_type (type_of old_stop) ≡ true
unfolding same_type type_of
is_a_stop = refl

Reach-IsStuck_example :
    (l : Feed) × Reach stopped_type 0 (new_feed []) l
    × (l.stop ≡ true)
    × ((u : Feed) → Run stopped_type 0 l u → IsStuck old_stop u)
Reach-IsStuck_example = Reach-IsStuck stopped_type 0 old_stop is_a_stop
