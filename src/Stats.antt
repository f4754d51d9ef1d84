-- ===== src/Stats.antt =====
-- mobile/stats.go: the counters and the recent events (`State`), the calls on them (`Calls`), the
-- events that are kept (`Trim`) and what a snapshot shows (`History`).
pub mod State
pub mod Calls
pub mod Trim
pub mod History
