-- ===== src/Tests.antt =====
-- The theorems at concrete inputs.
pub mod Toy
pub mod Files
mod Runs
mod Formats
mod Services
mod Passes
mod Interruptions
mod Actions
mod Histories
mod Scans
pub mod Rotations
mod Phrases
mod Releases
