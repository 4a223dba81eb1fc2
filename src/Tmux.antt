-- ===== src/Tmux.antt =====
-- src/layers/tmux.rs: the key tables of tmux, and what becomes of a key behind those before it.
pub mod Keys
pub mod Listing
pub mod Resolve
pub mod Inspect
pub mod Spec
pub mod Lookups
pub mod Resolved
pub mod Unread
pub mod Sequences
pub mod Clients
pub mod Fuel
pub mod Tokens
pub mod Listed
mod Examples
