-- ===== src/Dns.antt =====
-- internal/dns_mobile.go: the domains that the answers to the device stand for (`Mapping`,
-- `Remembered`), the answers (`Mobile`, `Given`) and the requests behind them (`Recovered`).
-- internal/dns.go: the resolver (`Resolver`) and where its texts come from (`Answered`,
-- `Provenance`, `Cached`).
pub mod Mapping
pub mod Remembered
pub mod Resolver
pub mod Answered
pub mod Provenance
pub mod Cached
pub mod Mobile
pub mod Given
pub mod Recovered
