-- ===== src/Dap/Reader/Loss.antt =====
-- What the reader's loop does when the connection is lost.
use mcp_dap_server_k8s_forwa.Prelude.{◌≤◌, ◌≡◌, ◌⊎◌, String, true, false, length}
use mcp_dap_server_k8s_forwa.Dap.Message.{Message}
use mcp_dap_server_k8s_forwa.Dap.Bus.{Subscription, event_buf_size, same_type, connection_lost_type}
use mcp_dap_server_k8s_forwa.Dap.Registry
use mcp_dap_server_k8s_forwa.Dap.Registry.Inv.{Inv}
use mcp_dap_server_k8s_forwa.Dap.Client.{Client, reading}
use mcp_dap_server_k8s_forwa.Dap.Reader.{failed, read_turn, turn_at, handle_read, lose_connection}

pub read_turn-lost :
    (e : String) (c : Client)
    → c.pump ≡ reading
    → c.cancelled ≡ false
    → read_turn (failed e) c ≡ lose_connection e c
unfolding read_turn turn_at handle_read
read_turn-lost e c r live = simp (r, live)

-- A subscription that the event does not reach: it is cancelled, or it is one to other events, or
-- its channel is full.
abbrev pub IsPassedOver : Subscription → Type 0
IsPassedOver s =
    (s.stop ≡ true)
    ⊎ ((same_type s.event_type connection_lost_type ≡ false) ⊎ (event_buf_size ≤ length s.ch))
