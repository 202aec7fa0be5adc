-- ===== src/Tests/Reconnects.antt =====
-- The sends and the reconnect loop of dap.go on concrete inputs.
use mcp_dap_server_k8s_forwa.Prelude.{
  ◌+◌, ◌%◌, ◌^◌, ◌<◌, ◌≡◌, refl, [], ◌∷◌, ◌++◌, none, some, true, false, arith, inl, inr,
}
use mcp_dap_server_k8s_forwa.Dap.Bus.{Subscription, connection_lost_type, stopped_type}
use mcp_dap_server_k8s_forwa.Dap.Request
use mcp_dap_server_k8s_forwa.Dap.Request.{Request}
use mcp_dap_server_k8s_forwa.Dap.Registry.{Registry, find}
use mcp_dap_server_k8s_forwa.Dap.Registry
use mcp_dap_server_k8s_forwa.Dap.Registry.Inv
use mcp_dap_server_k8s_forwa.Dap.Client.{
  Client, new_client, start_read_loop, set_reinit_hook, mark_stale, raise_stale, close_registry,
  send_and_register, write_error, reading,
}
use mcp_dap_server_k8s_forwa.Dap.Client.Sending.{send_and_register-fails}
use mcp_dap_server_k8s_forwa.Dap.Reconnect.{
  Attempt, Hook, refused, connected, do_reconnect, lasting, reconnected, dialled,
}
use mcp_dap_server_k8s_forwa.Dap.Reconnect.Backoff.{IsFailing, delays, do_reconnect_waits}
use mcp_dap_server_k8s_forwa.Dap.Reconnect.Outcome.{handed, do_reconnect_succeeds}
use mcp_dap_server_k8s_forwa.Dap.Reconnect.Machine.{
  Machine, nothing, by_sender, in_turn, emptied, swaps, finds_stale, empties, Reach, here, next,
  waiting, reinitialising, Inv, IsStarted, IsForgotten, stale_is_attended, drop_in_hook-IsForgotten,
}

abbrev client : Client
client = start_read_loop (set_reinit_hook (new_client 1 "localhost:24010" true 0))

abbrev threads_message : Request
threads_message = record { seq = 1; command = Request.threads }

client-live : client.stale ≡ false
unfolding start_read_loop set_reinit_hook new_client
client-live = refl

client-reading : client.pump ≡ reading
unfolding start_read_loop
client-reading = refl

client-open : client.cancelled ≡ false
unfolding start_read_loop set_reinit_hook new_client
client-open = refl

send_and_register-fails_example :
    let (e, c') = send_and_register (some "EPIPE") 1 threads_message client in
    (e ≡ some (write_error "EPIPE"))
    × (c'.wire ≡ client.wire)
    × (find 1 c'.registry.responses ≡ find 1 client.registry.responses)
    × (c'.torn ≡ true)
    × (c'.stale ≡ true)
    × (c'.reconn_ch ≡ true)
send_and_register-fails_example =
    send_and_register-fails "EPIPE" 1 1 threads_message client client-live

abbrev failing : Attempt
failing = record {
  done_before = false;
  redial = refused "connection refused";
  done_after_close = false;
  done_in_backoff = false;
  max_backoff = 30;
}

failing-IsFailing : IsFailing 30 failing
unfolding dialled
failing-IsFailing = record {
  not_before = refl;
  no_connection = refl;
  not_in_backoff = refl;
  limit_constant = refl;
}

abbrev quiet : Hook
quiet c = (none, c)

abbrev failing_hook : Hook
failing_hook c = (some "reinitialize: no backend", c)

do_reconnect_waits_example :
    let r = do_reconnect quiet 8 (failing ∷ failing ∷ failing ∷ []) client in
    (r.0 ≡ lasting) × (r.1 ≡ delays 8 30 0 3)
do_reconnect_waits_example =
    do_reconnect_waits 8 30 (omega arith) quiet (failing ∷ failing ∷ failing ∷ []) client
      (omega arith) (failing-IsFailing, (failing-IsFailing, (failing-IsFailing, tt)))

abbrev good : Attempt
good = record failing { redial = connected 2 }

client-attempts : client.reconnect_attempts < 2 ^ 32
unfolding start_read_loop set_reinit_hook new_client
client-attempts = omega arith

client-hooked : client.hooked ≡ true
unfolding start_read_loop set_reinit_hook new_client
client-hooked = refl

client-Inv : Inv.Inv (record { registry = client.registry; flight = none })
unfolding start_read_loop set_reinit_hook new_client Registry.empty_registry
client-Inv = record { pending = tt; free = tt }

do_reconnect_succeeds_example :
    let r = do_reconnect quiet 8 ((failing ∷ []) ++ (good ∷ [])) client in
    let h = handed 2 (failing ∷ []) client in
    (r.0 ≡ reconnected)
    × (r.2 ≡ record (quiet h).1 { stale = false })
    × (h.rwc ≡ 2)
    × (h.seq ≡ client.seq)
    × (h.reconnect_attempts ≡ (client.reconnect_attempts + 1 + 1) % 2 ^ 32)
    × (h.registry.responses ≡ [])
do_reconnect_succeeds_example =
    do_reconnect_succeeds quiet 8 30 2 (failing ∷ []) [] good client none client-attempts
      (failing-IsFailing, tt) refl refl refl client-hooked refl client-Inv

abbrev stale_client : Client
stale_client = mark_stale client

abbrev machine : Machine
machine = record { client = client; phase = waiting; owed = nothing; losing = in_turn }

machine-IsStarted : IsStarted machine
unfolding start_read_loop set_reinit_hook new_client
machine-IsStarted = (refl, refl, refl, refl, refl)

-- A sender raises the flag; before it signals, the reader finds the connection lost and empties the
-- registry.
stale_is_attended_example : Inv (record machine {
  client = close_registry (raise_stale client);
  owed = by_sender;
  losing = emptied "EOF";
})
stale_is_attended_example = stale_is_attended machine-IsStarted (
    next
      (next (next here (swaps client-live))
        (finds_stale "EOF" refl client-reading client-open refl))
      (empties "EOF" refl (λ e. cc e)))

abbrev in_the_hook : Machine
in_the_hook = record {
  client = record client { stale = true };
  phase = reinitialising;
  owed = nothing;
  losing = in_turn;
}

in_the_hook-Inv : Inv in_the_hook
unfolding start_read_loop set_reinit_hook new_client
in_the_hook-Inv = record {
  attended = inr (inr (inr (inr (inl refl))));
  signalled = inl refl;
  owes = inl refl;
  at_work = inr (refl, refl, refl);
}

in_the_hook-reading : in_the_hook.client.pump ≡ reading
unfolding start_read_loop
in_the_hook-reading = refl

in_the_hook-live : in_the_hook.client.cancelled ≡ false
unfolding start_read_loop set_reinit_hook new_client
in_the_hook-live = refl

in_the_hook-token : in_the_hook.client.pump_resume ≡ some false
unfolding start_read_loop
in_the_hook-token = refl

drop_in_hook-IsForgotten_example : (u : Machine) × Reach in_the_hook u × IsForgotten u
drop_in_hook-IsForgotten_example =
    drop_in_hook-IsForgotten in_the_hook "EOF" none in_the_hook-Inv refl refl in_the_hook-reading
      in_the_hook-live in_the_hook-token

-- A client with a subscription to the loss and one to stops.
abbrev for_loss : Subscription
for_loss = record { event_type = connection_lost_type; ch = []; out = []; stop = false; id = 1 }

abbrev for_stops : Subscription
for_stops = record { event_type = stopped_type; ch = []; out = []; stop = false; id = 2 }

abbrev subscribed : Client
subscribed = record client { bus = record client.bus { subscribers = for_loss ∷ for_stops ∷ [] } }
