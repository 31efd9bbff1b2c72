-- ===== src/Store.antt =====
-- crates/jobstore/src/lib.rs: the SQLite store as three tables, each SQL statement a function over
-- their rows. The statements themselves do not fail here, and the lock on the connection makes
-- each method one step.
pub mod Tables
pub mod Queries
pub mod TaskTable
pub mod TaskRows
pub mod Logs
pub mod Jobs
pub mod Opening
mod Tests
