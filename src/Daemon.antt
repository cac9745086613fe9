-- ===== src/Daemon.antt =====
-- The main package: main.go and sweep.go.
pub mod Reloader
pub mod Tracker
pub mod Runtime
pub mod Sweep
pub mod Loop
pub mod Pipeline
pub mod Pools
pub mod Handling
pub mod Locked
pub mod Lifetime
pub mod Main
