-- ===== src/Kernel.antt =====
-- Smaller parts of the kernel: guarded statics, the clock and the timer, the interrupt controllers and
-- the descriptors of the interrupt and segment tables.
pub mod ContAccess
pub mod Time
pub mod Pic
pub mod Descriptors
mod Tests
