-- ===== src/Tests/DeviceTests.antt =====
-- The screen, the keyboard, ELF files and the floppy drive.
use sea_star_os.Base.{
  and_then, ◌-◌, ◌<◌, ◌≤◌, ◌*◌, ◌+◌, ℕ, zero, suc, ◌+◌, ◌*◌, ◌≡◌, refl, ◌↔◌, ◌&&◌, some, [], ◌∷◌,
  arith, leb, ◌==◌, if◌then◌else◌,
}
use sea_star_os.CLib.Strings.{Memory}
use sea_star_os.Kernel.Display.{Screen, kernel_puts}
use sea_star_os.Kernel.Display.Bounds.{IsOnScreen, kernel_puts-IsOnScreen}
use sea_star_os.Kernel.Elf.{elf_check_support, IsSupportedElf, elf_check_support_iff}
use sea_star_os.Drivers.Floppy.{Floppy, sleep, floppydisk_wait_for_irq, floppydisk_lba2chs}
use sea_star_os.Drivers.Floppy.Waiting.{after_sleeps, floppydisk_wait_for_irq_lem}
use sea_star_os.Drivers.Floppy.Sectors.{floppydisk_lba2chs_lem}
use sea_star_os.Drivers.Keyboard.{Keyboard, handle_code, kkeyboard_set_leds}
use sea_star_os.Drivers.Keyboard.Handler.{handle_code-press}
use sea_star_os.Arch.Ports.{Ports}

-- the cursor on the last row
abbrev last_row : Screen
last_row = record { x_pos = 79; y_pos = 24; color = 0x12; video = λ k. k; out = [] }

kernel_puts-IsOnScreen_example :
    IsOnScreen (kernel_puts last_row (b'a' ∷ b'\n' ∷ 0x80 ∷ []))
    × ((kernel_puts last_row (b'a' ∷ b'\n' ∷ 0x80 ∷ [])).video 2000 ≡ 2000)
kernel_puts-IsOnScreen_example =
    kernel_puts-IsOnScreen (b'a' ∷ b'\n' ∷ 0x80 ∷ []) last_row 2000
      (record { column = omega arith; row = omega arith }) (omega arith)

abbrev keyboard : Keyboard
keyboard = record {
  scancode = 0;
  numlock = 0;
  scrolllock = 0;
  capslock = 0;
  shift = 1;
  alt = 1;
  ctrl = 1;
  bat_response = 1;
  diag_response = 0;
  resend_response = 0;
  is_disabled = 0;
  extendedscancode = 0;
}

abbrev ports : Ports
ports = record { input = λ p. []; out = [] }

-- the keyboard takes both bytes
abbrev ready : Ports
ready = record { input = λ p. 0 ∷ 0 ∷ []; out = [] }

-- caps lock, with ctrl, shift and alt held
handle_code-press_example :
    handle_code keyboard 0x3A ready
    ≡ and_then
        (kkeyboard_set_leds 0 1 0 ready)
        λ m. some (record keyboard { scancode = 0x3A; capslock = 1 }, m)
handle_code-press_example = handle_code-press keyboard 0x3A ready (omega arith)

-- the controller interrupts in the third sleep
abbrev floppy : Floppy
floppy = record {
  current_drive = 0;
  irq_flag = 0;
  dma_buffer = 0x1000;
  sleeps = 0 ∷ 0 ∷ 1 ∷ [];
  ports = ports;
}

sleep-floppy : (j : ℕ) → j < 3 → (after_sleeps j floppy).irq_flag ≡ 0
unfolding sleep
sleep-floppy zero h = refl
sleep-floppy (suc zero) h = refl
sleep-floppy (suc (suc zero)) h = refl
sleep-floppy (suc (suc (suc j))) h = absurd (omega arith)

sleep-interrupted : (after_sleeps 3 floppy).irq_flag ≡ 1
unfolding sleep
sleep-interrupted = refl

floppydisk_wait_for_irq_lem_example :
    ((floppydisk_wait_for_irq floppy).0 ≡ 1) × ((floppydisk_wait_for_irq floppy).1.irq_flag ≡ 0)
floppydisk_wait_for_irq_lem_example =
    floppydisk_wait_for_irq_lem 3 floppy sleep-floppy (λ h. omega (arith, sleep-interrupted))

-- an executable for the 386 at 4096
abbrev elf_image : Memory
elf_image a =
    if a == 4096
    then 0x7F
    else if a == 4097
    then b'E'
    else if a == 4098
    then b'L'
    else if a == 4099
    then b'F'
    else if leb 4100 a && leb a 4102
    then 1
    else if a == 4112
    then 2
    else if a == 4114
    then 3
    else 0

elf_check_support_iff_example :
    ((elf_check_support elf_image 4096).0 ≡ 1) ↔ IsSupportedElf elf_image 4096
elf_check_support_iff_example = elf_check_support_iff elf_image 4096

-- the last sector of the disk
floppydisk_lba2chs_lem_example :
    let (head, track, sector) = floppydisk_lba2chs 2879 in
    ((track * 2 + head) * 18 + (sector - 1) ≡ 2879)
    × (head < 2)
    × (0 < sector)
    × (sector ≤ 18)
    × (track < 80)
floppydisk_lba2chs_lem_example = floppydisk_lba2chs_lem 2879 80 (omega arith)
