-- ===== src/Config.antt =====
-- internal/config.go: a configuration is validated and loaded into the globals (`Load`, `Steps`),
-- all of it or nothing (`Monitors`, `Reset`).
pub mod Load
pub mod Steps
pub mod Monitors
pub mod Reset
