-- ===== src/Sync.antt =====
-- libutil/src: the types that guard the kernel's statics, and the descriptors of tables.
pub mod Send
pub mod Exclusive
pub mod InitLater
pub mod Flag
mod Tests
