-- ===== src/Tunnel.antt =====
-- internal/tun_bridge.go and internal/tunnel.go: what happens to the first bytes of a connection.
-- The operations on a connection (`Wire`); the connection that the device writes to (`Bridge`) and
-- what a sequence of writes puts on the wire (`Stream`, `Chunks`, `Refused`); the tunnel of the
-- proxy (`State`, `HandleTls`, `HandleTunnel`) and its connections (`Counts`, `Balance`, `Served`,
-- `Unserved`).
pub mod Wire
pub mod Bridge
pub mod Stream
pub mod Chunks
pub mod Refused
pub mod State
pub mod HandleTls
pub mod HandleTunnel
pub mod Counts
pub mod Balance
pub mod Served
pub mod Unserved
