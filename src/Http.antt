-- ===== src/Http.antt =====
-- internal/http.go: the requests to the proxy (`Handler`) and the connections to servers that they
-- leave (`Connected` for CONNECT, `Started` for all).
pub mod Handler
pub mod Connected
pub mod Started
