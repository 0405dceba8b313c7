-- ===== src/Frp.antt =====
-- frp/manager.go and frp/frpc_client.go: the manager keeps a client of frp running while the local
-- port is available. `Polling` has the loops that wait, `Sessions` the goroutines, `Config` the
-- configuration of the client.
pub mod Polling
pub mod Available
pub mod Sessions
pub mod OneClient
pub mod Kill
pub mod Config
pub mod Parser
pub mod Tunnels
pub mod Hosts
