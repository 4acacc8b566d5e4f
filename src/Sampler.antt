-- ===== src/Sampler.antt =====
-- The sampling of GPU counters: the sessions and the operations of the vinstr back end.
pub mod Session
pub mod Backend
pub mod Layout
pub mod Blocks
pub mod Config
pub mod Values
pub mod Poll
pub mod Args
pub mod Setup
mod Tests
