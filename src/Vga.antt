-- ===== src/Vga.antt =====
-- kernel/src/vga.rs and kernel/src/vga: the text screen. `vga::init` prints a greeting that depends
-- on the build, and is not modelled.
pub mod Screen
pub mod Cursor
pub mod Buffers
pub mod Print
pub mod Topbar
pub mod Valid
pub mod Tests
