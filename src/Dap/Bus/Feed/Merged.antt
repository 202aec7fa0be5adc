-- ===== src/Dap/Bus/Feed/Merged.antt =====
-- dap.go: what a subscription has given and is still to give, in every state that is reached.
use mcp_dap_server_k8s_forwa.Dap.Bus.Feed.{Feed}
