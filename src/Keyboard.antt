-- ===== src/Keyboard.antt =====
-- kernel/src/interrupts/keyboard.rs, the keyboard driver.
pub mod Ring
pub mod Keys
pub mod Poll
pub mod Loop
pub mod Start
mod Tests
