-- ===== src/Lib.antt =====
-- SeaStar OS: memory management, file systems, drivers, the shell and tables of the processor.
--
-- The kernel keeps the free blocks of physical memory in a bitmap (Kernel/pmm.c), hands them to page
-- tables and pages (Kernel/vmm.c with the entries of vmm_pte.c and vmm_pde.c), prints on a text
-- screen (Kernel/KernelDisplay.c) and checks programs (Kernel/elf32.c). A table of file systems
-- (Fs/vfs.c) passes a path on to the file system mounted on its device; the RAM disk (Fs/ramdisk.c)
-- reads a tar archive in memory with the string functions of Lib/string.c, and FAT12 (Fs/fat12.c)
-- the sectors of a floppy disk. The drivers and the tables of the processor (Drivers, Arch/x86/Hal)
-- write ports and descriptors. At the start kmain (Kernel/main.c) hands the memory to the block
-- allocator, sets the vectors of the interrupts (Hal.c) and turns paging on; the heap asks for
-- pages (Kernel/liballoc_hook.c), a process gets its pages (Kernel/task.c), and the shell (Shell/seashell.c) reads lines from the keyboard and opens files.
--
-- Where each part is:
--   Kernel/Pmm: Kernel/pmm.c. The record Pmm is its static variables, the bitmap a table of words.
--   Kernel/Vmm: Kernel/vmm.c over Kernel/Pmm, memory a table of words by address; Kernel/Vmm/Entries
--     has vmm_pte.c and vmm_pde.c. vmm_map_physical_addr is vmm_mapPhysicalAddr, and so on.
--   Kernel/Paging: vmm_initialize and vmm_switch_pdirectory of Kernel/vmm.c.
--   Kernel/HeapPages: Kernel/liballoc_hook.c. Kernel/Boot: the memory in Kernel/main.c.
--   Kernel/Task: Kernel/task.c; Kernel/Task/Process has createProcess and executeProcess, which ends
--     with the frame of its jump. Kernel/Elf: Kernel/elf32.c. Kernel/Syscall: Kernel/syscall.c.
--   Kernel/Panic: Kernel/panic.c and Kernel/exception.c.
--   Kernel/Display: Kernel/KernelDisplay.c; kernel_putc is kernelPutc, and Kernel/Display/Printf has
--     kernelPrintf, whose arguments are a list of words.
--   CLib/Strings: Lib/string.c over a flat memory of bytes. CLib/Numbers and CLib/Format: the
--     conversions from text to numbers and vsprintf of Lib/stdio.c.
--   Fs/Vfs: Fs/vfs.c; vol_open_file is volOpenFile, a file system a record of functions.
--   Fs/Ramdisk: Fs/ramdisk.c; rd_open is fsysRdOpen, and so on.
--   Fs/Fat12: Fs/fat12.c; fat_read is fsysFatRead, and so on. The reading of a sector is a parameter.
--   Shell: Shell/seashell.c; Shell/Input has get_cmd, Shell/Commands run_cmd, Shell/Directory the
--     paths with cmd_change_dir and cmd_read_file, Shell/Main the loop SeaShell, and
--     Shell/Clock, Shell/Dump and Shell/Launch the commands time, floppydump and elf32.
--   Drivers/Keyboard: Drivers/keyboard/keyboard_driver.c.
--   Drivers/Floppy: Drivers/floppy/floppy_driver.c over the ports and Arch/Dma.
--   Arch: Arch/x86/Hal; Rtc is rtc.c, the clock, Ports has inportb and outportb, the others the file
--     of their name, Pic also interruptdone of Hal.c, and Hal the rest of Hal.c with the starts of
--     idt.c, pit.c and cpu.c; the vectors that kmain sets are lists there.
--   Base: shared names, words, lists, memory and bits. Tests: each result at a concrete input.
--
-- A C pointer is an address, NULL is 0. Words are numbers, with `% 2 ^ w` written out where the C
-- type wraps. What C leaves undefined, an index out of a table for one, is `none`. A loop over a
-- string or an archive takes fuel and is `none` where it runs out; the results that need fuel say
-- how much is enough: more than the length of the string, the number of entries, of clusters of the
-- file, of states of the keyboard or of page tables that are searched. The retry of
-- vmm_mapPhysicalAddr needs two calls. A device is the bytes that its ports answer; the keyboard of
-- the shell is the list of the driver's states that its polls see.
--
-- Not modelled: liballoc, which is another project's library; the commands of the shell that only
-- print, which are a parameter of its loop; the order in which kmain starts the other parts; and the
-- machine instructions that load processor registers or jump. The text of the shell's messages and
-- the listings printed by the RAM disk are left out too.
mod Base
pub mod Kernel
pub mod Arch
pub mod CLib
pub mod Drivers
pub mod Fs
pub mod Shell
mod Tests
