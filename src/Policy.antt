-- ===== src/Policy.antt =====
-- internal/policy.go: the policy record and its enumerations (`Types`), the names they are read
-- from (`Names`), reading a policy (`Decode`), merging and defaults (`Merge`).
pub mod Types
pub mod Names
pub mod Merge
pub mod Fields
pub mod Defaults
pub mod Decode
pub mod Range
