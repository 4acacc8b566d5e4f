-- ===== src/Device.antt =====
-- The GPU as the profiler sees it: product ids and kernel driver versions.
pub mod ProductId
pub mod ExecEngines
pub mod Version
pub mod Properties
pub mod Extents
pub mod Instance
mod Tests
