-- ===== src/Tests/Waits.antt =====
-- The wait of `wait-for-stop` on the event bus, on concrete inputs.
use mcp_dap_server_k8s_forwa.Prelude.{pos, List, [], ◌∷◌, some, true, false}
use mcp_dap_server_k8s_forwa.Dap.Message.{Event, stopped}
use mcp_dap_server_k8s_forwa.Dap.Ring.{new_event_ring}
use mcp_dap_server_k8s_forwa.Dap.Ring.Replay.{push_all}
use mcp_dap_server_k8s_forwa.Dap.Bus.{Bus, RingEntry, zero_entry, event_buf_size}
use mcp_dap_server_k8s_forwa.Dap.Waits.{event_case, context_case}
use mcp_dap_server_k8s_forwa.Dap.Client.{Client, new_client}
use mcp_dap_server_k8s_forwa.Session.{Session, Env, deadline_exceeded}
use mcp_dap_server_k8s_forwa.Session.Control.{WaitParams}
use mcp_dap_server_k8s_forwa.Tests.Sessions.{session, accepting}

abbrev first_stop : Event
first_stop = stopped "breakpoint" (pos 1)

abbrev second_stop : Event
second_stop = stopped "breakpoint" (pos 2)

-- Two stops that no wait has consumed.
abbrev two_stops : List RingEntry
two_stops = record { t = 5; msg = first_stop } ∷ record { t = 6; msg = second_stop } ∷ []

abbrev two_stops_client : Client
two_stops_client = record (new_client 1 "localhost:24010" true 0) {
  bus = record {
    subscribers = [];
    replay_ring = push_all (new_event_ring zero_entry event_buf_size) two_stops;
    sub_id_counter = 0;
  };
}

abbrev twice_stopped : Session
twice_stopped = record session { client = some two_stops_client; last_stop_at = 3 }

abbrev no_pause : WaitParams
no_pause = record { timeout_sec = pos 30; pause_if_timeout = false; thread_id = pos 0 }

-- No stop comes during the wait, and the context is done already.
abbrev stopping : Env
stopping = record accepting {
  wait = λ n. record {
    before = [];
    comes = [];
    order = event_case ∷ context_case ∷ [];
    ctx_error = deadline_exceeded;
  };
}
