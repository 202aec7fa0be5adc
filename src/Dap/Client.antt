-- ===== src/Dap/Client.antt =====
-- dap.go: `DAPClient`, its state and the operations that a single goroutine makes on it in one go.
-- Sockets are numbered; `wire` records the messages that were written to them in full, newest last,
-- and `torn` whether a write to the present socket has failed, which may have left a part of its
-- message there.
pub mod Sending
use mcp_dap_server_k8s_forwa.Prelude.{
  ℕ, ◌+◌, ◌%◌, ◌^◌, String, List, [], ◌∷◌, ◌++◌, Option, none, some, Bool, true, false,
  if◌then◌else◌, inc_int,
}
use mcp_dap_server_k8s_forwa.Dap.Message.{Event}
use mcp_dap_server_k8s_forwa.Dap.Request.{Command, Request}
use mcp_dap_server_k8s_forwa.Dap.Registry
use mcp_dap_server_k8s_forwa.Dap.Registry.{Registry}
use mcp_dap_server_k8s_forwa.Dap.Bus
use mcp_dap_server_k8s_forwa.Dap.Bus.{Bus}

-- Where the reader goroutine is: not started, reading, blocked until `pumpResume` after an I/O
-- error, or gone.
pub data Pump : Type 0 where
  not_started reading parked exited : Pump

-- `reconn_ch` and `pump_resume` hold whether a signal stands in the channel; `pump_resume` is nil
-- before `startReadLoop`. `last_reconnect_error` is empty until something is stored.
pub record Client : Type 0 where
  pub rwc : ℕ
  pub seq : ℕ
  pub addr : String
  pub redials : Bool
  pub stale : Bool
  pub reconn_ch : Bool
  pub cancelled : Bool
  pub reconnect_attempts : ℕ
  pub last_reconnect_error : Option String
  pub hooked : Bool
  pub registry : Registry
  pub bus : Bus
  pub pump : Pump
  pub pump_resume : Option Bool
  pub wire : List Request
  pub torn : Bool

-- `newDAPClientInternal`: `redials` is whether a backend is given.
unfoldable pub new_client : ℕ → String → Bool → ℕ → Client
unfolding Registry.empty_registry Bus.new_bus
new_client rwc addr redials sub_counter = record {
  rwc = rwc;
  seq = 1;
  addr = addr;
  redials = redials;
  stale = false;
  reconn_ch = false;
  cancelled = false;
  reconnect_attempts = 0;
  last_reconnect_error = none;
  hooked = false;
  registry = Registry.empty_registry;
  bus = Bus.new_bus sub_counter;
  pump = not_started;
  pump_resume = none;
  wire = [];
  torn = false;
}

-- `newDAPClient`: the dial of the TCP address is the environment's, `none` if it fails.
unfoldable pub new_dap_client : Option ℕ → String → Bool → ℕ → Option Client
unfolding new_client
new_dap_client none addr redials sub_counter = none
new_dap_client (some rwc) addr redials sub_counter = some (new_client rwc addr redials sub_counter)

-- `newDAPClientFromRWC`
unfoldable pub new_dap_client_from_rwc : ℕ → ℕ → Client
unfolding new_client
new_dap_client_from_rwc rwc sub_counter = new_client rwc "" false sub_counter

-- `startReadLoop`, the part of `Start` that has a state.
unfoldable pub start_read_loop : Client → Client
start_read_loop c = record c { pump = reading; pump_resume = some false }

-- `SetReinitHook`, with a hook.
unfoldable pub set_reinit_hook : Client → Client
set_reinit_hook c = record c { hooked = true }

-- `newRequest`: the request with the next sequence number.
unfoldable pub new_request : Command → Client → Request × Client
new_request cmd c = (record { seq = c.seq; command = cmd }, record c { seq = inc_int c.seq })

-- The two halves of `markStale`: the compare-and-swap that succeeds, and the signal that does not
-- block.
abbrev pub raise_stale : Client → Client
raise_stale c = record c { stale = true }

abbrev pub signal_reconnect : Client → Client
signal_reconnect c = record c { reconn_ch = true }

-- `markStale`, as one goroutine runs it. `Reconnect.Machine` takes the halves one by one.
unfoldable pub mark_stale : Client → Client
mark_stale c = if c.stale then c else signal_reconnect (raise_stale c)

-- `rawSend`: the write of the socket is the environment's, `some e` if it fails. A message is
-- written as a header and a body, so a write that fails may leave a part of it on the socket.
unfoldable pub raw_send : Option String → Request → Client → Option String × Client
raw_send none req c = (none, record c { wire = c.wire ++ (req ∷ []) })
raw_send (some e) req c = (some e, record c { torn = true })

-- The error of a send: the write's, or `ErrConnectionStale`.
pub data SendError : Type 0 where
  connection_stale : SendError
  write_error : String → SendError

-- `send`
unfoldable pub send : Option String → Request → Client → Option SendError × Client
send written req c =
    if c.stale
    then (some connection_stale, c)
    else let (e, c') = raw_send written req c in
      elim e [ none ↦ (none, c') | some x ↦ (some (write_error x), mark_stale c') ]

abbrev pub with_registry : Registry → Client → Client
with_registry r c = record c { registry = r }

-- What both registering sends do when the write has failed.
unfoldable pub drop_registration : Bool → ℕ → Client → Client
drop_registration newly seq c =
    if newly then with_registry (Registry.unregister seq c.registry) c else c

-- `sendAndRegisterRaw`: no stale check, and the connection is not marked.
unfoldable pub send_and_register_raw :
    Option String → ℕ → Request → Client → Option SendError × Client
send_and_register_raw written seq req c =
    let (newly, r) = Registry.register_if_absent seq c.registry in
    let (e, c') = raw_send written req (with_registry r c) in
    elim e [ none ↦ (none, c') | some x ↦ (some (write_error x), drop_registration newly seq c') ]

-- `sendAndRegister`
unfoldable pub send_and_register : Option String → ℕ → Request → Client → Option SendError × Client
send_and_register written seq req c =
    if c.stale
    then (some connection_stale, c)
    else let (newly, r) = Registry.register_if_absent seq c.registry in
      let (e, c') = raw_send written req (with_registry r c) in
      elim e [
        | none ↦ (none, c')
        | some x ↦ (some (write_error x), mark_stale (drop_registration newly seq c'))
      ]

-- `SendRequest`: the number is allocated here, and the message is written as it was given.
unfoldable pub send_request : Option String → Request → Client → (Option String × ℕ) × Client
send_request written msg c =
    let seq = c.seq in
    let c1 = record c { seq = inc_int c.seq; registry = Registry.register seq c.registry } in
    let (e, c2) = raw_send written msg c1 in
    elim e [
      | none ↦ ((none, seq), c2)
      | some x ↦ ((some x, 0), with_registry (Registry.unregister seq c2.registry) c2)
    ]

-- The non-blocking signal on `pumpResume`, when the channel exists.
unfoldable pub signal_resume : Client → Client
signal_resume c = record c { pump_resume = elim c.pump_resume [ none ↦ none | some b ↦ some true ] }

-- `closeRegistry`; `Registry.Inv.run-Inv` shows that it does not panic.
unfoldable pub close_registry : Client → Client
unfolding Registry.close_registry
close_registry c = with_registry (Registry.close_registry c.registry).1 c

-- `replaceConn`
unfoldable pub replace_conn : ℕ → Client → Client
unfolding close_registry signal_resume
replace_conn rwc c = signal_resume (close_registry (record c { rwc = rwc; torn = false }))

-- `Close`, up to its wait for the reader.
unfoldable pub close : Client → Client
close c = record c { cancelled = true }
