-- ===== src/Tests.antt =====
-- Runs of the models at concrete inputs.
pub mod Machine
pub mod Figures
pub mod Limits
pub mod Registry
pub mod Sorting
pub mod Specs
pub mod Calls
pub mod Shared
pub mod Rate
pub mod Progress
pub mod Recorded
pub mod Metered
pub mod Spacing
pub mod Server
pub mod Demo
