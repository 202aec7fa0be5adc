-- ===== src/Tests/Stale.antt =====
-- `reinitialize` on a connection that is marked stale.
use mcp_dap_server_k8s_forwa.Prelude.{ℕ, [], ◌∷◌, ◌≡◌, refl, some, ◌==◌, if◌then◌else◌}
use mcp_dap_server_k8s_forwa.Dap.Message.{initialize_body, plain, no_capabilities}
use mcp_dap_server_k8s_forwa.Dap.Bus.{same_type, type_of}
use mcp_dap_server_k8s_forwa.Dap.Waits.{termination_case}
use mcp_dap_server_k8s_forwa.Dap.Waits.First.{Greets}
use mcp_dap_server_k8s_forwa.Dap.Client.{new_client, start_read_loop}
use mcp_dap_server_k8s_forwa.Session.{ok}
use mcp_dap_server_k8s_forwa.Session.Lifecycle.{register_tools}
use mcp_dap_server_k8s_forwa.Session.Reinit.{reinitialize}
use mcp_dap_server_k8s_forwa.Session.Reinit.Liveness.{reinitialize-succeeds}
use mcp_dap_server_k8s_forwa.Tests.Runs.{
  adapter, remote, backend, remote-args, dropped_client, stale_session,
}

stale_session-backend : stale_session.backend ≡ some backend
unfolding register_tools
stale_session-backend = refl

greeted :
    (if dropped_client.seq == 1 then initialize_body no_capabilities else plain)
    ≡ initialize_body no_capabilities
unfolding start_read_loop new_client
greeted = refl

greets : (n : ℕ) → Greets (adapter.wait n)
unfolding same_type type_of
greets n = (termination_case ∷ [], [], refl, refl)

reinitialize-succeeds_example : (reinitialize adapter stale_session).0 ≡ ok tt
reinitialize-succeeds_example =
    reinitialize-succeeds adapter backend remote stale_session dropped_client no_capabilities refl
      stale_session-backend remote-args (λ n. refl) (λ n. (_, refl, refl)) greeted greets
