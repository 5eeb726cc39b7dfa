-- ===== src/Drivers.antt =====
-- Drivers: the keyboard and the floppy disk.
pub mod Keyboard
pub mod Floppy
