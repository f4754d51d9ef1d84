-- ===== src/Pool.antt =====
-- internal/ippool.go: the pool of addresses (`State`), ranking the results of a scan (`Rank`),
-- taking over the best ones (`Update`), and the weighted round robin (`Select`).
pub mod State
pub mod Rank
pub mod Update
pub mod Select
pub mod Patterns
pub mod Config
pub mod Expanded
pub mod Sources
pub mod Accepted
