-- ===== src/Dap/Registry/Acts.antt =====
-- The goroutines that share the registry, as sequences of their atomic steps. `flight` is the
-- response that `dispatchResponse` holds between its critical section and its send.
use mcp_dap_server_k8s_forwa.Prelude.{ℕ, List, [], ◌∷◌, Option, none, some}
use mcp_dap_server_k8s_forwa.Dap.Message.{Message, Response, response}
use mcp_dap_server_k8s_forwa.Dap.Registry.{
  Registry, Outcome, done, register, register_if_absent, unregister, take, send, close_registry,
  receive,
}

pub record Shared : Type 0 where
  pub registry : Registry
  pub flight : Option (ℕ × Message)

-- `takes` and `delivers` are the reader's, `registers`, `allocates` and `unregisters` a sender's,
-- `closes` the reader's or the reconnect loop's, `receives` that of a waiter on a channel.
pub data Act : Type 0 where
  registers allocates unregisters : ℕ → Act
  takes : Response → Act
  delivers : Act
  closes : Act
  receives : ℕ → Act

unfoldable pub take_into : Response → Option ℕ × Registry → Shared
take_into m (none, r) = record { registry = r; flight = none }
take_into m (some i, r) = record { registry = r; flight = some (i, response m) }

unfoldable pub deliver : Option (ℕ × Message) → Registry → Outcome × Shared
unfolding send
deliver none r = (done, record { registry = r; flight = none })
deliver (some (i, m)) r = let (o, r') = send i m r in (o, record { registry = r'; flight = none })

-- There is one reader: it takes no response while it holds another.
unfoldable pub take_if_idle : Option (ℕ × Message) → Response → Registry → Shared
unfolding take_into take
take_if_idle (some f) m r = record { registry = r; flight = some f }
take_if_idle none m r = take_into m (take m.request_seq r)

unfoldable pub act : Act → Shared → Outcome × Shared
unfolding take_if_idle deliver
act (registers s) t = (done, record t { registry = (register_if_absent s t.registry).1 })
act (allocates s) t = (done, record t { registry = register s t.registry })
act (unregisters s) t = (done, record t { registry = unregister s t.registry })
act (takes m) t = (done, take_if_idle t.flight m t.registry)
act delivers t = deliver t.flight t.registry
act closes t = let (o, r) = close_registry t.registry in (o, record t { registry = r })
act (receives i) t = (done, record t { registry = (receive i t.registry).1 })

-- The goroutines go on while none of them panics or blocks for good.
unfoldable pub run : List Act → Shared → Outcome × Shared
run [] t = (done, t)
run (a ∷ acts) t =
    let (o, t') = act a t in let rest = run acts t' in elim o [ done ↦ rest | other ↦ (other, t') ]
