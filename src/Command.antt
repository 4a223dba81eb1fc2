-- ===== src/Command.antt =====
-- src/command.rs: the deadline that the diagnostics share.
pub mod Deadline
pub mod Nested
mod Examples
