-- ===== src/Cli.antt =====
-- crates/cli/src/main.rs: the client program.
pub mod Quoting
pub mod Torchrun
pub mod Commands
pub mod Output
pub mod Programs
pub mod Handlers
pub mod Client
pub mod Replies
pub mod Completion
pub mod Targets
mod Tests
