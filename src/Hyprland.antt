-- ===== src/Hyprland.antt =====
-- src/layers/hyprland: which binding of Hyprland a key press runs, and whether the key goes on.
pub mod Json
pub mod Binding
pub mod Keys
pub mod Device
pub mod Matching
pub mod Flow
pub mod Evidence
pub mod Inspect
pub mod Runs
pub mod States
pub mod Propagated
pub mod Concluded
pub mod Reached
pub mod Agreement
pub mod Primary
mod Examples
