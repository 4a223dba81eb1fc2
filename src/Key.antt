-- ===== src/Key.antt =====
-- src/key.rs: key combinations and sequences of them, as a user types them.
pub mod Modifiers
pub mod Names
pub mod Combo
pub mod Canonical
pub mod Strip
pub mod Displays
pub mod Parsed
pub mod RoundTrip
pub mod Alone
pub mod Echo
pub mod Sequence
pub mod SequenceRoundTrip
pub mod Fuel
pub mod Distance
pub mod Suggestion
pub mod Suggested
mod Examples
