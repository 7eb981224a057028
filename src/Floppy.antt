-- ===== src/Floppy.antt =====
-- kernel/src/floppy.rs and its modules: the driver of the 82077AA floppy controller.
pub mod Machine
pub mod Motor
pub mod Fifo
pub mod Start
pub mod Protocol
pub mod Command
pub mod Disk
pub mod Sends
pub mod Receives
pub mod Chunks
pub mod FloppyFs
mod Tests
