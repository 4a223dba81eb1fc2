-- ===== src/Sexp.antt =====
-- src/remapper/sexp.rs: the reader of S-expressions of the kanata and kmonad configurations.
pub mod Reader
pub mod Nesting
mod Examples
