-- ===== src/Protocol.antt =====
-- crates/protocol/src/lib.rs: the data that clients, the coordinator and the workers exchange.
-- Identifiers are the texts that they wrap; the texts of `new()` come from the random source and
-- are arguments of the operations that draw one. A path is its bytes, and an instant is a number.
mod Spec
mod Events
mod Messages
unfoldable pub use Spec.*
unfoldable pub use Events.*
unfoldable pub use Messages.*
