-- ===== src/Remapper.antt =====
-- src/remapper/keys.rs: the physical keys that the remappers' configurations name.
pub mod Evdev
pub mod Keysyms
pub mod Printable
pub mod Keys
pub mod Query
pub mod KeyNames
pub mod Masks
pub mod Emitted
mod Examples
