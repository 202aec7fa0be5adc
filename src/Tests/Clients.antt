-- ===== src/Tests/Clients.antt =====
-- The client of dap.go on concrete inputs.
use mcp_dap_server_k8s_forwa.Prelude.{
  ℕ, ◌≡◌, refl, List, [], ◌∷◌, ◌++◌, none, some, true, false, arith, keep, keep_last, pos,
}
use mcp_dap_server_k8s_forwa.Dap.Message.{Response, response, plain, Event, initialized, stopped}
use mcp_dap_server_k8s_forwa.Dap.Registry.{empty_registry, done, register, register_if_absent, find}
use mcp_dap_server_k8s_forwa.Dap.Registry.Acts.{
  Shared, Act, registers, takes, delivers, closes, receives, act, run,
}
use mcp_dap_server_k8s_forwa.Dap.Registry.Inv
use mcp_dap_server_k8s_forwa.Dap.Registry.Inv.{run-Inv}
use mcp_dap_server_k8s_forwa.Dap.Registry.Await.{
  answered, stale, await_response, await_response_late, await_response_in_time,
}
use mcp_dap_server_k8s_forwa.Dap.Ring.{new_event_ring, snapshot}
use mcp_dap_server_k8s_forwa.Dap.Ring.Replay.{push_all, snapshot-push_all}
use mcp_dap_server_k8s_forwa.Dap.Bus.{RingEntry, stopped_type, event_buf_size, replay, zero_entry}
use mcp_dap_server_k8s_forwa.Dap.Bus.Replay.{wanted, events, replay-snapshot}

abbrev nobody : Shared
nobody = record { registry = empty_registry; flight = none }

nobody-Inv : Inv.Inv nobody
unfolding empty_registry
nobody-Inv = record { pending = tt; free = tt }

abbrev ok_response : Response
ok_response = record { request_seq = 1; success = true; message = ""; body = plain }

abbrev one_exchange : List Act
one_exchange = registers 1 ∷ takes ok_response ∷ delivers ∷ receives 0 ∷ closes ∷ []

run-Inv_example : ((run one_exchange nobody).0 ≡ done) × Inv.Inv (run one_exchange nobody).1
run-Inv_example = run-Inv one_exchange nobody nobody-Inv

abbrev waiting_for_1 : Shared
waiting_for_1 = (act (registers 1) nobody).1

waiting_for_1-Inv : Inv.Inv waiting_for_1
unfolding act run
waiting_for_1-Inv = (run-Inv (registers 1 ∷ []) nobody nobody-Inv).1

waiting_for_1-idle : (run [] waiting_for_1).1.flight ≡ none
unfolding act run
waiting_for_1-idle = refl

waiting_for_1-flight : waiting_for_1.flight ≡ none
unfolding act
waiting_for_1-flight = refl

waiting_for_1-find : find 1 waiting_for_1.registry.responses ≡ some 0
unfolding act register_if_absent empty_registry register find
waiting_for_1-find = refl

await_response_late_example :
    await_response false 1 (takes ok_response ∷ []) (delivers ∷ []) waiting_for_1 ≡ stale
await_response_late_example =
    await_response_late 1 false ok_response [] (delivers ∷ []) waiting_for_1 waiting_for_1-Inv
      waiting_for_1-flight refl tt

await_response_in_time_example :
    await_response false 1 []
      ([] ++ (takes ok_response ∷ ((closes ∷ registers 1 ∷ []) ++ (delivers ∷ closes ∷ []))))
      waiting_for_1
    ≡ answered (response ok_response)
await_response_in_time_example =
    await_response_in_time 1 false ok_response [] (closes ∷ registers 1 ∷ []) (closes ∷ [])
      waiting_for_1 0 waiting_for_1-Inv waiting_for_1-find refl tt waiting_for_1-idle (tt, (tt, tt))
      (tt, tt)

abbrev numbers : List ℕ
numbers = 7 ∷ 8 ∷ 9 ∷ []

snapshot-push_all_example :
    snapshot {A = ℕ} 0 (push_all (new_event_ring {A = ℕ} 0 2) numbers) ≡ keep_last 2 numbers
snapshot-push_all_example = snapshot-push_all {A = ℕ} 0 2 numbers (omega arith) (omega arith)

abbrev history : List RingEntry
history =
    record { t = 3; msg = stopped "entry" (pos 1) }
    ∷ record { t = 5; msg = initialized }
    ∷ record { t = 7; msg = stopped "breakpoint" (pos 2) }
    ∷ []

replay-snapshot_example :
    replay stopped_type 4
      (snapshot zero_entry (push_all (new_event_ring zero_entry event_buf_size) history))
      []
    ≡ events (keep (wanted stopped_type 4) (keep_last event_buf_size history))
replay-snapshot_example = replay-snapshot stopped_type 4 history

abbrev gap_event : Event
gap_event = stopped "breakpoint" (pos 1)
