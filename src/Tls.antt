-- ===== src/Tls.antt =====
-- The TLS part of internal/utils.go: `parseClientHello` in `Parse`, its bounds in `Bounds`.
pub mod Parse
pub mod Bounds
