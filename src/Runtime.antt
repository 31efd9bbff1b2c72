-- ===== src/Runtime.antt =====
-- crates/runtime/src/main.rs: the launcher, which starts a coordinator and a worker on the first
-- node and a worker on each other one.
pub mod Config
pub mod Host
pub mod Files
pub mod Launch
pub mod Keeping
pub mod Safety
mod Tests
