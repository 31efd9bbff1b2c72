-- ===== src/Executor.antt =====
-- crates/executor/src/lib.rs: the processes of a worker and the events of their tasks.
pub mod Events
pub mod Runs
pub mod Table
pub mod Numbering
pub mod Traces
pub mod TraceSteps
pub mod Naming
pub mod Reports
pub mod Progress
mod Tests
