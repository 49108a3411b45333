-- ===== src/Server.antt =====
-- crates/server/src/main.rs: the reorder buffer of the server and what it is made of.
pub mod Sequence
pub mod Assembly
pub mod Skipped
pub mod Restart
pub mod FecState
pub mod Window
pub mod Loop
pub mod Frame
pub mod Registry
pub mod Health
pub mod Ui
