-- ===== src/Policy.antt =====
-- crates/policy/src/lib.rs and crates/sandbox-linux/src/lib.rs, with the part of
-- crates/worker/src/main.rs that decides whether a task is executed.
mod Paths
pub mod Rules
mod Decisions
pub mod Launch
mod Tests
