-- ===== src/Dap/Reader.antt =====
-- dap.go: `readLoop`, one turn at a time. What the socket yields is the environment's.
pub mod Loss
use mcp_dap_server_k8s_forwa.Prelude.{ℕ, String, false, if◌then◌else◌, none, some}
use mcp_dap_server_k8s_forwa.Dap.Message.{Message, response, event, unknown, connection_lost}
use mcp_dap_server_k8s_forwa.Dap.Registry
use mcp_dap_server_k8s_forwa.Dap.Bus
use mcp_dap_server_k8s_forwa.Dap.Client.{
  Client, Pump, not_started, reading, parked, exited, mark_stale, close_registry, with_registry,
}

-- What `dap.ReadProtocolMessage` returns, at a time.
pub data Read : Type 0 where
  arrived : ℕ → Message → Read
  failed : String → Read

abbrev with_bus : Bus.Bus → Client → Client
with_bus b c = record c { bus = b }

-- The `switch` on the message's type.
unfoldable pub route : ℕ → Message → Client → Client
unfolding Registry.dispatch_response Bus.dispatch_event
route now (response r) c = with_registry (Registry.dispatch_response r c.registry).1 c
route now (event e) c = with_bus (Bus.dispatch_event now e c.bus) c
route now unknown c = c

-- The error branch: the loop marks the connection stale, ends the waits for responses, tells the
-- subscribers, and blocks. `Reconnect.Machine` takes these one by one.
abbrev pub tell_loss : String → Client → Client
tell_loss e c = record c { bus = Bus.broadcast_event (connection_lost e) c.bus }

abbrev pub park : Client → Client
park c = record c { pump = parked }

unfoldable pub lose_connection : String → Client → Client
unfolding mark_stale close_registry Bus.broadcast_event
lose_connection e c = park (tell_loss e (close_registry (mark_stale c)))

-- The read and what follows it, for a loop that is reading.
unfoldable pub handle_read : Read → Client → Client
handle_read (arrived now m) c = route now m c
handle_read (failed e) c = if c.cancelled then record c { pump = exited } else lose_connection e c

-- The `select` of a blocked loop.
unfoldable pub try_resume : Client → Client
try_resume c = if c.cancelled then record c { pump = exited } else elim c.pump_resume [
  | none ↦ c
  | some ready ↦ if ready then record c { pump = reading; pump_resume = some false } else c
]

unfoldable pub turn_at : Pump → Read → Client → Client
turn_at reading r c = if c.cancelled then record c { pump = exited } else handle_read r c
turn_at parked r c = try_resume c
turn_at not_started r c = c
turn_at exited r c = c

-- One turn of the loop.
unfoldable pub read_turn : Read → Client → Client
unfolding turn_at
read_turn r c = turn_at c.pump r c
