-- ===== src/Worker.antt =====
-- crates/worker/src/main.rs: the worker's connection to the coordinator. Its `start_task` up to the
-- call of the executor is in Policy/Launch.
pub mod Backoff
pub mod Connection
pub mod Start
pub mod Answers
mod Tests
