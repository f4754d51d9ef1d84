-- ===== src/Tests.antt =====
-- Runs of the model on small inputs, and the theorems at inputs that meet their hypotheses.
mod Sending
mod Policies
mod Pools
mod Rules
mod Resolving
mod Statistics
mod Answers
mod Lookups
mod Tunnels
mod Clients
mod Loading
