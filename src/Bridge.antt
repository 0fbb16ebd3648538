-- ===== src/Bridge.antt =====
-- server/core/server.go and server/core/nats.go: the connections of the bridge and its connectors.
pub mod Cells
pub mod Reconnect
pub mod Server
pub mod Timer
