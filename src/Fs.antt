-- ===== src/Fs.antt =====
-- libfs: the filesystem library. Each child is about one of its files or types.
pub mod Ptr
pub mod InodePtr
pub mod Header
pub mod Inode
pub mod Bitmap
pub mod Table
pub mod Mount
mod Tests
