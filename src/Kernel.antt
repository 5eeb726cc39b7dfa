-- ===== src/Kernel.antt =====
-- The kernel proper: Kernel/ of the repository.
pub mod Pmm
pub mod Vmm
pub mod HeapPages
pub mod Paging
pub mod Boot
pub mod Task
pub mod Display
pub mod Elf
pub mod Panic
pub mod Syscall
