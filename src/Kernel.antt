-- ===== src/Kernel.antt =====
-- The kernel module, cl_mem_reg.c: its state, the two periods, throttling, GPU beats and start-up.
pub mod Units
pub mod State
pub mod Throttle
pub mod Timer
pub mod Gpu
pub mod Init
pub mod Start
pub mod Cores
pub mod Logging
pub mod Thread
pub mod Exit
pub mod Steps
pub mod Tests
