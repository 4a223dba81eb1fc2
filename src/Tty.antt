-- ===== src/Tty.antt =====
-- src/layers/terminal.rs: the TTY driver, which takes control bytes by its termios settings.
pub mod State
pub mod Driver
pub mod Legacy
pub mod Rows
pub mod Taken
mod Examples
