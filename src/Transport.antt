-- ===== src/Transport.antt =====
-- crates/transport/src/lib.rs: the health report that the server sends to its clients, and the state
-- of a path's connection. A text is the list of its characters, a character its code point.
pub mod Text
pub mod Decimal
pub mod Fields
pub mod Report
pub mod Path
