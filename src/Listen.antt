-- ===== src/Listen.antt =====
-- src/listen/protocol.rs: the key events that a terminal sends as bytes.
pub mod Names
pub mod Fields
pub mod Protocol
pub mod Observed
pub mod Events
pub mod Sequence
pub mod RoundTrip
pub mod Marked
mod Examples
