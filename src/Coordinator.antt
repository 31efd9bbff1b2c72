-- ===== src/Coordinator.antt =====
-- crates/coordinator/src/main.rs: the daemon that keeps the connected workers, the leases and the
-- job store, and serves workers and clients.
pub mod State
pub mod Sends
pub mod Leases
pub mod LeaseTable
pub mod LeaseRequests
pub mod Workers
pub mod Tracking
pub mod Losses
pub mod Failures
pub mod Sessions
pub mod Runs
pub mod RunInduction
pub mod Queued
pub mod Dispatch
pub mod RunTracking
pub mod Waiting
pub mod Diagnosis
pub mod Clients
pub mod Kills
pub mod Soundness
pub mod System
pub mod Connections
pub mod Start
mod Tests
mod ClientTests
mod SystemTests
