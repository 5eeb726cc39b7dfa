-- ===== src/Arch.antt =====
-- Arch/x86/Hal: the devices and tables of the machine.
pub mod Ports
pub mod Pic
pub mod Dma
pub mod Gdt
pub mod Idt
pub mod Pit
pub mod Rtc
pub mod Tss
pub mod Hal
