-- ===== src/Resolve.antt =====
-- How a request's host becomes a destination and a policy: the tables and the network (`Env`),
-- address redirection (`Transform`, `Redirect`), internal/policy.go `genPolicy` (`GenPolicy`),
-- `resolveDoHPolicyHost` (`DohHost`) and internal/dial_plan.go (`Plan`).
pub mod Env
pub mod Transform
pub mod Redirect
pub mod GenPolicy
pub mod DohHost
pub mod Plan
pub mod Blocking
pub mod Unmatched
pub mod Planned
pub mod Mapped
