-- ===== src/Dap/Bus/Feed.antt =====
-- dap.go: one subscription at work. The caller of `Subscribe`, the reader's fan-out, the bridge
-- goroutine and whoever reads `out` take their steps in any order.
pub mod Order
pub mod Merged
pub mod Placed
pub mod Stuck
pub mod Ending
use mcp_dap_server_k8s_forwa.Prelude.{
  ℕ, suc, ◌≡◌, ◌<◌, List, [], ◌∷◌, ◌++◌, Bool, true, false, length, keep,
}
use mcp_dap_server_k8s_forwa.Dap.Message.{Event}
use mcp_dap_server_k8s_forwa.Dap.Bus.{
  EventType, type_of, same_type, RingEntry, event_buf_size, offer, replay,
}
use mcp_dap_server_k8s_forwa.Dap.Bus.Replay.{wanted, events}

-- Where the caller is: before the registration and in the replay loop, each with the entries of the
-- snapshot that are still to be visited; behind `Subscribe`; in `cancel`, behind the removal.
pub data Call : Type 0 where
  unregistered replaying : List RingEntry → Call
  subscribed removed : Call

-- Where the fan-out of an event is with this subscription: it has the subscription in its copy of
-- the list, or it has found `stop` open and is about to send.
pub data Fan : Type 0 where
  idle : Fan
  copied offering : Event → Fan

-- Where the bridge goroutine is: not started, at its `select`, at `out <- typed`, in the drain loop,
-- behind its return, when `out` is closed.
pub data Bridge : Type 0 where
  unborn choosing : Bridge
  handing : Event → Bridge
  draining gone : Bridge

-- The channels and the places of the goroutines; and, for the statements, what has been read from
-- `out`, what the replay loop and the fan-out have offered to `ch`, and the events in whose copy of
-- the list the subscription was.
pub record Feed : Type 0 where
  pub call : Call
  pub fan : Fan
  pub bridge : Bridge
  pub ch : List Event
  pub out : List Event
  pub stop : Bool
  pub received : List Event
  pub replayed : List Event
  pub live : List Event
  pub due : List Event

-- `Subscribe` behind its snapshot.
abbrev pub new_feed : List RingEntry → Feed
new_feed seen = record {
  call = unregistered seen;
  fan = idle;
  bridge = unborn;
  ch = [];
  out = [];
  stop = false;
  received = [];
  replayed = [];
  live = [];
  due = [];
}

-- The subscription stands in `c.subscribers[t]`.
unfoldable pub is_registered : Call → Bool
is_registered (unregistered entries) = false
is_registered (replaying entries) = true
is_registered subscribed = true
is_registered removed = false

-- A step of the goroutines of the client and of the caller. Only events of type `ty` get as far as
-- `copies`, and only they are in `ch`, so the type assertions of the bridge hold.
pub data Step (ty : EventType) (since : ℕ) (l : Feed) : Feed → Type 0 where
  registers :
      (entries : List RingEntry)
      → l.call ≡ unregistered entries
      → Step ty since l (record l { call = replaying entries })
  replays :
      (e : RingEntry) (entries : List RingEntry)
      → l.call ≡ replaying (e ∷ entries)
      → Step ty since l (record l {
        call = replaying entries;
        ch = replay ty since (e ∷ []) l.ch;
        replayed = l.replayed ++ events (keep (wanted ty since) (e ∷ []));
      })
  starts_bridge :
      l.call ≡ replaying [] → Step ty since l (record l { call = subscribed; bridge = choosing })
  copies :
      (e : Event)
      → l.fan ≡ idle
      → is_registered l.call ≡ true
      → same_type ty (type_of e) ≡ true
      → Step ty since l (record l { fan = copied e; due = l.due ++ (e ∷ []) })
  skips : (e : Event) → l.fan ≡ copied e → l.stop ≡ true → Step ty since l (record l { fan = idle })
  checks :
      (e : Event)
      → l.fan ≡ copied e
      → l.stop ≡ false
      → Step ty since l (record l { fan = offering e })
  offers :
      (e : Event)
      → l.fan ≡ offering e
      → Step ty since l (record l { fan = idle; ch = offer e l.ch; live = l.live ++ (e ∷ []) })
  takes :
      (e : Event) (rest : List Event)
      → l.bridge ≡ choosing
      → l.ch ≡ e ∷ rest
      → Step ty since l (record l { bridge = handing e; ch = rest })
  hands :
      (e : Event)
      → l.bridge ≡ handing e
      → length l.out < event_buf_size
      → Step ty since l (record l { bridge = choosing; out = l.out ++ (e ∷ []) })
  sees_stop : l.bridge ≡ choosing → l.stop ≡ true → Step ty since l (record l { bridge = draining })
  drains :
      (e : Event) (rest : List Event)
      → l.bridge ≡ draining
      → l.ch ≡ e ∷ rest
      → Step ty since l (record l { ch = rest; out = offer e l.out })
  returns : l.bridge ≡ draining → l.ch ≡ [] → Step ty since l (record l { bridge = gone })
  removes : l.call ≡ subscribed → Step ty since l (record l { call = removed })
  stops : l.call ≡ removed → l.stop ≡ false → Step ty since l (record l { stop = true })

-- States that are reached without a read of `out`, and with reads.
pub data Run (ty : EventType) (since : ℕ) (l : Feed) : Feed → Type 0 where
  still : Run ty since l l
  acts : {m u : Feed} → Run ty since l m → Step ty since m u → Run ty since l u

pub data Reach (ty : EventType) (since : ℕ) (l : Feed) : Feed → Type 0 where
  here : Reach ty since l l
  next : {m u : Feed} → Reach ty since l m → Step ty since m u → Reach ty since l u
  reads :
      {m : Feed}
      → Reach ty since l m
      → (e : Event) (rest : List Event) → m.out ≡ e ∷ rest
      → Reach ty since l (record m { out = rest; received = m.received ++ (e ∷ []) })

unfoldable pub run_length : {ty : EventType} {since : ℕ} {l u : Feed} → Run ty since l u → ℕ
run_length still = 0
run_length (acts r st) = suc (run_length r)
