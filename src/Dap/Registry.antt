-- ===== src/Dap/Registry.antt =====
-- dap.go: the response registry. `responses` maps a request's sequence number to a channel of
-- buffer 1, which `AwaitResponse` reads. A channel outlives its entry, so channels are cells of a
-- heap and the map holds their addresses. Each function here is one critical section of
-- `registryMu`, or one operation on a channel.
pub mod Acts
pub mod Pending
pub mod Inv
pub mod Lookup
pub mod Held
pub mod Await
use mcp_dap_server_k8s_forwa.Prelude.{
  ℕ, zero, suc, ◌+◌, List, [], ◌∷◌, Option, none, some, Bool, true, false, if◌then◌else◌, ◌==◌,
}
use mcp_dap_server_k8s_forwa.Dap.Message.{Message, Response, response}

-- `chan dap.Message` made with buffer 1.
pub record Chan : Type 0 where
  pub item : Option Message
  pub closed : Bool

abbrev pub open_chan : Chan
open_chan = record { item = none; closed = false }

pub record Registry : Type 0 where
  pub responses : List (ℕ × ℕ)
  pub cell : ℕ → Chan
  pub next : ℕ

-- What a channel operation does to the goroutine that makes it.
pub data Outcome : Type 0 where
  done blocks panics : Outcome

abbrev pub update : (ℕ → Chan) → ℕ → Chan → ℕ → Chan
update f i c j = if j == i then c else f j

unfoldable pub empty_registry : Registry
empty_registry = record { responses = []; cell = λ i. open_chan; next = 0 }

-- The map: lookup, delete, and `m[seq] = ch`.
unfoldable pub find : ℕ → List (ℕ × ℕ) → Option ℕ
find s [] = none
find s ((t, i) ∷ m) = if t == s then some i else find s m

unfoldable pub delete : ℕ → List (ℕ × ℕ) → List (ℕ × ℕ)
delete s [] = []
delete s ((t, i) ∷ m) = let rest = delete s m in if t == s then rest else (t, i) ∷ rest

-- `c.responses[seq] = make(chan dap.Message, 1)`
unfoldable pub register : ℕ → Registry → Registry
unfolding delete
register s r = record r {
  responses = (s, r.next) ∷ delete s r.responses;
  cell = update r.cell r.next open_chan;
  next = r.next + 1;
}

-- `registerResponseIfAbsent`: true if a new channel was made.
unfoldable pub register_if_absent : ℕ → Registry → Bool × Registry
unfolding find register
register_if_absent s r = elim (find s r.responses) [
  | some i ↦ (false, r)
  | none ↦ (true, register s r)
]

-- `unregisterResponse`
unfoldable pub unregister : ℕ → Registry → Registry
unfolding delete
unregister s r = record r { responses = delete s r.responses }

-- The critical section of `dispatchResponse`: the channel to send to, with the entry removed.
unfoldable pub take : ℕ → Registry → Option ℕ × Registry
unfolding find delete
take s r = elim (find s r.responses) [
  | none ↦ (none, r)
  | some i ↦ (some i, record r { responses = delete s r.responses })
]

-- `ch <- m`
unfoldable pub send : ℕ → Message → Registry → Outcome × Registry
send i m r = if (r.cell i).closed then (panics, r) else elim (r.cell i).item [
  | some old ↦ (blocks, r)
  | none ↦ (done, record r { cell = update r.cell i (record { item = some m; closed = false }) })
]

-- `dispatchResponse`, the two parts together. An orphan is dropped.
unfoldable pub dispatch_response : Response → Registry → Outcome × Registry
unfolding take send
dispatch_response m r =
    let (ch, r') = take m.request_seq r in
    elim ch [ none ↦ (done, r') | some i ↦ send i (response m) r' ]

-- `close(ch)`
unfoldable pub close_chan : ℕ → Registry → Outcome × Registry
close_chan i r = if (r.cell i).closed then (panics, r) else (
  done,
  record r { cell = update r.cell i (record { item = (r.cell i).item; closed = true }) },
)

-- The loop of `closeRegistry`: Go may visit the entries in any order.
unfoldable pub close_all : List (ℕ × ℕ) → Registry → Outcome × Registry
unfolding close_chan
close_all [] r = (done, record r { responses = [] })
close_all ((s, i) ∷ m) r =
    let (o, r') = close_chan i (record r { responses = m }) in
    let rest = close_all m r' in
    elim o [ done ↦ rest | blocks ↦ (blocks, r') | panics ↦ (panics, r') ]

-- `closeRegistry`
unfoldable pub close_registry : Registry → Outcome × Registry
unfolding close_all
close_registry r = close_all r.responses r

-- What `AwaitResponse` sees when it reads its channel.
pub data Received : Type 0 where
  got : Message → Received
  closed : Received
  waits : Received

-- `msg, open := <-ch`: a buffered message comes before the closing.
unfoldable pub receive : ℕ → Registry → Received × Registry
receive i r = elim (r.cell i).item [
  | some m ↦ (
    got m,
    record r { cell = update r.cell i (record { item = none; closed = (r.cell i).closed }) },
  )
  | none ↦ (if (r.cell i).closed then closed else waits, r)
]
