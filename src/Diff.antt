-- ===== src/Diff.antt =====
-- src/diff.rs: the differences of two saved reports.
pub mod Values
pub mod Compare
pub mod Loops
pub mod Same
pub mod Found
mod Examples
