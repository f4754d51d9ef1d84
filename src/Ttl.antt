-- ===== src/Ttl.antt =====
-- The TTL rules of internal/desync_rules.go and internal/desync.go.
pub mod Rules
pub mod Apply
pub mod Choice
pub mod Ends
