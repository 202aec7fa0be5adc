-- ===== src/Dap/Bus.antt =====
-- dap.go: the event bus. `dispatchEvent` and `broadcastEvent` fan an event out to the subscriptions
-- of its type; `Subscribe` first replays what the ring still holds. A subscription has the channel
-- `ch`, which the fan-out writes, and the channel `out`, to which the bridge goroutine moves what
-- stands in `ch`; both have room for `event_buf_size` events.
pub mod Replay
pub mod FanOut
pub mod Feed
use mcp_dap_server_k8s_forwa.Prelude.{
  ℕ, zero, suc, ◌+◌, ◌%◌, ◌^◌, List, [], ◌∷◌, ◌++◌, Option, none, some, Bool, true, false, not,
  ◌&&◌, if◌then◌else◌, ◌==◌, ltb, length, keep, String,
}
use mcp_dap_server_k8s_forwa.Dap.Message.{
  Event, stopped, terminated, initialized, connection_lost, other_event,
}
use mcp_dap_server_k8s_forwa.Dap.Ring
use mcp_dap_server_k8s_forwa.Dap.Ring.{EventRing}

abbrev pub event_buf_size : ℕ
event_buf_size = 64

-- `reflect.TypeOf(e)`: the types that the program subscribes to, and the rest.
pub data EventType : Type 0 where
  stopped_type terminated_type initialized_type connection_lost_type other_type : EventType

unfoldable pub type_of : Event → EventType
type_of (stopped reason thread) = stopped_type
type_of terminated = terminated_type
type_of initialized = initialized_type
type_of (connection_lost e) = connection_lost_type
type_of (other_event name) = other_type

unfoldable pub same_type : EventType → EventType → Bool
same_type stopped_type stopped_type = true
same_type terminated_type terminated_type = true
same_type initialized_type initialized_type = true
same_type connection_lost_type connection_lost_type = true
same_type other_type other_type = true
same_type _ _ = false

-- `ringEntry`
pub record RingEntry : Type 0 where
  pub t : ℕ
  pub msg : Event

abbrev pub zero_entry : RingEntry
zero_entry = record { t = 0; msg = terminated }

-- `stop` tells whether its channel is closed.
pub record Subscription : Type 0 where
  pub event_type : EventType
  pub ch : List Event
  pub out : List Event
  pub stop : Bool
  pub id : ℕ

pub record Bus : Type 0 where
  pub subscribers : List Subscription
  pub replay_ring : EventRing RingEntry
  pub sub_id_counter : ℕ

unfoldable pub new_bus : ℕ → Bus
unfolding Ring.new_event_ring
new_bus counter = record {
  subscribers = [];
  replay_ring = Ring.new_event_ring zero_entry event_buf_size;
  sub_id_counter = counter;
}

-- `select { case ch <- e: default: }`
unfoldable pub offer : Event → List Event → List Event
offer e ch = if ltb (length ch) event_buf_size then ch ++ (e ∷ []) else ch

-- The body of the fan-out loop, for a subscription of any type.
unfoldable pub fan_out_one : Event → Subscription → Subscription
unfolding offer same_type type_of
fan_out_one e s =
    if same_type s.event_type (type_of e)
    then (if s.stop then s else record s { ch = offer e s.ch })
    else s

unfoldable pub fan_out : Event → List Subscription → List Subscription
unfolding fan_out_one
fan_out e [] = []
fan_out e (s ∷ subs) = fan_out_one e s ∷ fan_out e subs

-- `dispatchEvent`, at time `now`.
unfoldable pub dispatch_event : ℕ → Event → Bus → Bus
unfolding fan_out Ring.push
dispatch_event now e b = record b {
  replay_ring = Ring.push b.replay_ring (record { t = now; msg = e });
  subscribers = fan_out e b.subscribers;
}

-- `broadcastEvent`
unfoldable pub broadcast_event : Event → Bus → Bus
unfolding fan_out
broadcast_event e b = record b { subscribers = fan_out e b.subscribers }

-- The replay loop of `Subscribe`: `!e.t.Before(since)` and the type assertion.
unfoldable pub replay : EventType → ℕ → List RingEntry → List Event → List Event
unfolding offer same_type type_of
replay ty since [] ch = ch
replay ty since (e ∷ entries) ch =
    replay ty since entries
      (if ltb e.t since then ch else if same_type ty (type_of e.msg) then offer e.msg ch else ch)

-- `subIDCounter.Add(1)` on an `atomic.Uint64`.
abbrev pub inc_uint64 : ℕ → ℕ
inc_uint64 n = (n + 1) % 2 ^ 64

-- A subscription when its replay is done.
unfoldable pub new_subscription : EventType → ℕ → List RingEntry → ℕ → Subscription
unfolding replay
new_subscription ty since entries id = record {
  event_type = ty;
  ch = replay ty since entries [];
  out = [];
  stop = false;
  id = id;
}

-- `Subscribe` from the registration on, with the entries that its snapshot found; no event comes
-- between the registration and the replay. The new subscription stands last among the others, and
-- its id is returned for `cancel`.
unfoldable pub subscribe_with : EventType → ℕ → List RingEntry → Bus → ℕ × Bus
unfolding new_subscription
subscribe_with ty since entries b =
    let id = inc_uint64 b.sub_id_counter in
    (
      id,
      record b {
        sub_id_counter = id;
        subscribers = b.subscribers ++ (new_subscription ty since entries id ∷ []);
      },
    )

-- `Subscribe`, with no event between the snapshot and the registration.
unfoldable pub subscribe : EventType → ℕ → Bus → ℕ × Bus
unfolding subscribe_with Ring.snapshot
subscribe ty since b = subscribe_with ty since (Ring.snapshot zero_entry b.replay_ring) b

-- One round of the bridge goroutine, as long as it has not seen `stop`.
unfoldable pub bridge_step : Subscription → Subscription
bridge_step s = elim s.ch [
  | [] ↦ s
  | e ∷ rest ↦
      if ltb (length s.out) event_buf_size
      then record s { ch = rest; out = s.out ++ (e ∷ []) }
      else s
]

-- The `cancel` function: the first subscription of this id goes.
unfoldable pub remove_sub : ℕ → List Subscription → List Subscription
remove_sub id [] = []
remove_sub id (s ∷ subs) = let rest = remove_sub id subs in if s.id == id then subs else s ∷ rest

unfoldable pub cancel : ℕ → Bus → Bus
unfolding remove_sub
cancel id b = record b { subscribers = remove_sub id b.subscribers }

-- `ev := <-out`, for the subscription of this id.
unfoldable pub find_sub : ℕ → List Subscription → Option Subscription
find_sub id [] = none
find_sub id (s ∷ subs) = if s.id == id then some s else find_sub id subs
