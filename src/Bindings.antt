-- ===== src/Bindings.antt =====
-- src/bindings.rs and src/conflicts.rs: the inventory of bindings, its filters, and its conflicts.
pub mod Grouping
pub mod Inventory
pub mod Conflicts
pub mod Grouped
pub mod Groups
pub mod Actions
pub mod Reported
pub mod Clashes
pub mod Ordered
mod Examples
