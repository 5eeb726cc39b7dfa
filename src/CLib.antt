-- ===== src/CLib.antt =====
-- The C library of the kernel: Lib/ of the repository.
pub mod Strings
pub mod Numbers
pub mod Format
