-- ===== src/Drivers/Floppy/Installing.antt =====
-- The settings of the floppy driver, and its installation.
use sea_star_os.Base.{ℕ, bit_or, Option, some, List, ◌==◌, if◌then◌else◌, and_then}
use sea_star_os.Arch.Ports.{inportb}
use sea_star_os.Arch.Idt.{IdtDescriptor}
use sea_star_os.Arch.Hal.{setvect}
use sea_star_os.Drivers.Floppy.{
  Floppy, floppydisk_write_dor, floppydisk_reset, floppydisk_drive_data,
}

pub floppydisk_set_dma : ℕ → Floppy → Floppy
floppydisk_set_dma addr f = record f { dma_buffer = addr }

pub floppydisk_read_status : Floppy → Option (ℕ × Floppy)
floppydisk_read_status f =
    and_then (inportb 0x3f4 f.ports) λ (status, ports). some (status, record f { ports = ports })

pub floppydisk_disable_controller : Floppy → Floppy
floppydisk_disable_controller f = floppydisk_write_dor 0 f

pub floppydisk_enable_controller : Floppy → Floppy
floppydisk_enable_controller f = floppydisk_write_dor (bit_or 4 8) f

pub floppydisk_get_working_drive : Floppy → ℕ
floppydisk_get_working_drive f = f.current_drive

-- `i86_floppy_irq` has an address.
pub floppydisk_install :
    ℕ → ℕ → List IdtDescriptor → Floppy → Option (ℕ × List IdtDescriptor × Floppy)
floppydisk_install i86_floppy_irq irq idt f = and_then (setvect idt irq i86_floppy_irq 0) λ idt'.
    and_then (floppydisk_reset f) λ (timeout, f1).
      let ready = and_then (floppydisk_drive_data 13 1 0xf 1 f1) λ f2. some (1, idt', f2) in
      if timeout == 0 then some (0, idt', f1) else ready
