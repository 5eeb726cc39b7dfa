-- ===== src/Fs.antt =====
-- The file systems.
pub mod Vfs
pub mod Ramdisk
pub mod Fat12
