-- ===== src/Runtime.antt =====
-- What the Go code runs on: maps, and actions that may panic.
pub mod Exec
pub mod Safe
pub mod Cost
pub mod Dict
pub mod Int
