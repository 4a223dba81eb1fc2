-- ===== src/Route.antt =====
-- src/layers/model.rs and src/layers/inspection.rs: the route of a key through the layers.
pub mod Model
pub mod Outcomes
pub mod Accumulator
pub mod Request
pub mod Chain
pub mod Spec
pub mod Stages
pub mod Steps
pub mod Refinement
pub mod Remap
pub mod Stale
pub mod Sequence
pub mod Remapped
pub mod Noted
pub mod Sequenced
pub mod Delivery
mod Examples
