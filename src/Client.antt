-- ===== src/Client.antt =====
-- crates/client/src/main.rs: how a payload becomes packets, how they are sent and repaired, and the tasks of a path.
pub mod Split
pub mod Fec
pub mod RepairCache
pub mod Send
pub mod Strategy
pub mod PathSend
pub mod Tasks
pub mod Ui
pub mod Context
