-- ===== src/Session/Debug/Dialled.antt =====
-- tools.go: the new client of `debug`, which has written nothing yet.
use mcp_dap_server_k8s_forwa.Prelude.{ℕ, ◌≡◌, refl, String, Bool, [], Option, none, some}
use mcp_dap_server_k8s_forwa.Backend.{Backend, Transport, tcp, stdio, transport_mode, redials}
use mcp_dap_server_k8s_forwa.Backend.Spawn.{Spawned, spawned, spawn_failed}
use mcp_dap_server_k8s_forwa.Dap.Client.{
  new_client, new_dap_client, new_dap_client_from_rwc, set_reinit_hook, start_read_loop,
}
use mcp_dap_server_k8s_forwa.Session.{Session, ok, Tool, ◌>>◌, modify}
use mcp_dap_server_k8s_forwa.Session.Calls.{commands}
use mcp_dap_server_k8s_forwa.Session.Points.Persist.{SameBooks}
use mcp_dap_server_k8s_forwa.Session.Debug.{
  World, dial, connect_client, hook_and_start, connect_spawned,
}

-- The new client has written nothing yet.
abbrev pub Fresh : Session → Session → Type 0
Fresh s t = (commands t ≡ []) × SameBooks s t

abbrev connect_and_hook : World → Backend → Transport → String → Tool (Unit {0})
connect_and_hook w b tr addr = connect_client w b tr addr >> modify (λ s. hook_and_start s.client s)

dial-Fresh :
    (o : Option ℕ) (r : Bool) (k : ℕ) (addr : String) (s : Session)
    → let m = dial (new_dap_client o addr r k) addr >> modify (λ s. hook_and_start s.client s) in
      (m s).0 ≡ ok tt → Fresh s (m s).1
unfolding new_dap_client new_client set_reinit_hook start_read_loop
dial-Fresh none r k addr s h = absurd (cc h)
dial-Fresh (some n) r k addr s h = (refl, (refl, refl))

connect_and_hook-Fresh :
    (w : World) (b : Backend) (tr : Transport) (addr : String) (s : Session)
    → (connect_and_hook w b tr addr s).0 ≡ ok tt
    → Fresh s (connect_and_hook w b tr addr s).1
unfolding new_dap_client_from_rwc new_client set_reinit_hook start_read_loop
connect_and_hook-Fresh w b tcp addr s h = dial-Fresh w.dialled (redials b) w.sub_counter addr s h
connect_and_hook-Fresh w b stdio addr s h = (refl, (refl, refl))

pub connect_spawned-Fresh :
    (w : World) (b : Backend) (x : Spawned) (s : Session)
    → (connect_spawned w b x s).0 ≡ ok tt
    → Fresh s (connect_spawned w b x s).1
connect_spawned-Fresh w b (spawn_failed e) s h = absurd (cc h)
connect_spawned-Fresh w b (spawned cmd addr) s h =
    connect_and_hook-Fresh w b (transport_mode b) addr (record s { cmd = cmd }) h
