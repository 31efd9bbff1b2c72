-- ===== src/Auth.antt =====
-- crates/auth/src/lib.rs: the bearer tokens with which workers and clients authenticate.
pub mod Tokens
pub mod Requests
pub mod Handshake
mod Responses
mod TokenFiles
mod Tests
