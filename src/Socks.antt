-- ===== src/Socks.antt =====
-- internal/socks5.go: the handshake with a client and the start of its tunnel (`Handler`), requests
-- as RFC 1928 writes them (`Encoded`), and the connections that a request opens (`Opened`) and
-- leaves to its tunnel (`Started`).
pub mod Handler
pub mod Encoded
pub mod Opened
pub mod Started
