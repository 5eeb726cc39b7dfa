-- ===== src/Drivers/Floppy.antt =====
-- Drivers/floppy/floppy_driver.c: commands to the floppy disk controller, its motor, seeking and the
-- reading of a sector.
--
-- The static variables and the ports are the fields of a record. `sleeps` holds the values that the
-- interrupt flag has after each of the next sleeps, as the interrupt handler leaves it; where the
-- list ends the flag stays as it is; sleep of Hal.c only waits for the timer. A read of a port that answers nothing more is `none`.
pub mod Sectors
pub mod Waiting
pub mod Installing
use sea_star_os.Base.{
  ℕ, zero, suc, ◌+◌, ◌-◌, ◌*◌, ◌/◌, ◌%◌, ◌^◌, ◌≤◌, ◌<◌, min, max, bit_and, bit_or, ◌≡◌, refl, sym,
  ap, ◌∙◌, ◌≢◌, ◌↔◌, ◌⊎◌, inl, inr, Bool, true, false, not, ◌&&◌, ◌||◌, Option, none, some, List,
  [], ◌∷◌, ◌++◌, map, arith, ltb, leb, ◌==◌, if◌then◌else◌, ==_iff, Bool-cases, Option-cases, u8,
  u16, u32, sub32, not32, ◌<<<◌, ◌>>>◌, length, get_elem?, get_or, set, length-append, length-set,
  get_elem?-set_self, get_elem?-set_ne, get_elem?-past, update, update_lem, test_bit, test_bit-le,
  test_bit-or, test_bit-and, test_bit-zero, test_bit-pow, test_bit-complement, word_ext,
  bit_and-zero, bit_and-pow, bit_and-lt, bit_or-lt, pow-lt, test_bit_of_clear, test_bit_of_set,
  bit_or-disjoint, test_bit-high, test_bit-low, bit_and-u8, bit_and-u16, test_bit-shifted,
  test_bit_of_lt, ℤ, pos, negsuc, sub_ℕ, all_below, all_below_sound,
}
use sea_star_os.Base.{and_then}
use sea_star_os.Arch.Ports.{Ports, inportb, outportb}
use sea_star_os.Arch.Pic.{interruptdone}
use sea_star_os.Arch.Dma.{
  dma_mask_channel, dma_unmask_all, dma_reset, dma_reset_flipflop, dma_set_address, dma_set_count,
  dma_set_read,
}

pub record Floppy : Type 0 where
  pub current_drive : ℕ
  pub irq_flag : ℕ
  pub dma_buffer : ℕ
  pub sleeps : List ℕ
  pub ports : Ports

unfoldable pub sleep : Floppy → Floppy
sleep f = elim f.sleeps [ [] ↦ f | v ∷ vs ↦ record f { irq_flag = v; sleeps = vs } ]

-- The 32-bit address and count; bytes 0 and 1 of each are written.
unfoldable pub dma_init_floppydisk : ℕ → ℕ → Floppy → Option (ℕ × Floppy)
dma_init_floppydisk buffer len f =
    let c = sub32 len 1 in
    let m1 = dma_reset 1 f.ports in
    let written = and_then (dma_mask_channel 2 m1) λ m2.
      let m3 = dma_set_address 2 (u8 buffer) (u8 (buffer >>> 8)) (dma_reset_flipflop 1 m2) in
      let m4 = dma_set_count 2 (u8 c) (u8 (c >>> 8)) (dma_reset_flipflop 1 m3) in
      and_then (dma_set_read 2 m4) λ m5. some (1, record f { ports = dma_unmask_all 1 m5 }) in
    if not (buffer >>> 24 == 0)
      || not (c >>> 16 == 0)
      || not (u32 (bit_and buffer 0xffff + c) >>> 16 == 0)
    then some (0, f)
    else written

unfoldable pub floppydisk_write_dor : ℕ → Floppy → Floppy
floppydisk_write_dor val f = record f { ports = outportb 0x3f2 val f.ports }

-- `for(i=0;i<500;i++)`: after 500 busy answers the command is dropped
unfoldable pub send_loop : ℕ → ℕ → Floppy → Option Floppy
send_loop zero cmd f = some f
send_loop (suc left) cmd f = and_then (inportb 0x3f4 f.ports) λ (status, m).
    let rest = send_loop left cmd (record f { ports = m }) in
    if bit_and status 128 == 0 then rest else some (record f { ports = outportb 0x3f5 cmd m })

unfoldable pub floppydisk_send_command : ℕ → Floppy → Option Floppy
floppydisk_send_command cmd f = send_loop 500 cmd f

unfoldable pub read_loop : ℕ → Floppy → Option (ℕ × Floppy)
read_loop zero f = some (0, f)
read_loop (suc left) f = and_then (inportb 0x3f4 f.ports) λ (status, m).
    let rest = read_loop left (record f { ports = m }) in
    if bit_and status 128 == 0
    then rest
    else and_then (inportb 0x3f5 m) λ (v, m'). some (v, record f { ports = m' })

unfoldable pub floppydisk_read_data : Floppy → Option (ℕ × Floppy)
floppydisk_read_data f = read_loop 500 f

unfoldable pub floppydisk_write_ccr : ℕ → Floppy → Floppy
floppydisk_write_ccr val f = record f { ports = outportb 0x3f7 val f.ports }

-- the loop with `timer`; eleven rounds end it
pub wait_loop : ℕ → ℕ → Floppy → ℕ × Floppy
wait_loop zero timer f = (timer, f)
wait_loop (suc left) timer f =
    let rest = wait_loop left (timer + 1) (sleep f) in
    if f.irq_flag == 0 && leb timer 10 then rest else (timer, f)

pub floppydisk_wait_for_irq : Floppy → ℕ × Floppy
floppydisk_wait_for_irq f =
    let (timer, f') = wait_loop 11 0 f in
    (if leb 10 timer then 0 else 1, record f' { irq_flag = 0 })

unfoldable pub i86_floppy_irq_c : Floppy → Floppy
i86_floppy_irq_c f = record f { irq_flag = 1; ports = interruptdone 6 f.ports }

-- `st0` and `cyl`
unfoldable pub floppydisk_check_int : Floppy → Option (ℕ × ℕ × Floppy)
floppydisk_check_int f = and_then (floppydisk_send_command 8 f) λ f1.
    and_then (floppydisk_read_data f1)
      λ (st0, f2). and_then (floppydisk_read_data f2) λ (cyl, f3). some (st0, cyl, f3)

unfoldable pub motor_mask : ℕ → ℕ
motor_mask drive =
    if drive == 0 then 16 else if drive == 1 then 32 else if drive == 2 then 64 else 128

unfoldable pub floppydisk_control_motor : ℕ → Floppy → Floppy
floppydisk_control_motor b f =
    let on = u8 (bit_or (bit_or (bit_or f.current_drive (motor_mask f.current_drive)) 4) 8) in
    if ltb 3 f.current_drive then f else sleep (floppydisk_write_dor (if b == 1 then on else 4) f)

-- The second byte is a test in C: `(loadt << 1 | dma == 1) ? 0 : 1`.
unfoldable pub floppydisk_drive_data : ℕ → ℕ → ℕ → ℕ → Floppy → Option Floppy
floppydisk_drive_data stepr loadt unloadt dma f =
    let rates = u8 (bit_or (bit_and stepr 0xf <<< 4) (bit_and unloadt 0xf)) in
    let second = if bit_or (loadt <<< 1) (if dma == 1 then 1 else 0) == 0 then 1 else 0 in
    and_then (floppydisk_send_command 3 f)
      λ f1. and_then (floppydisk_send_command rates f1) λ f2. floppydisk_send_command second f2

-- the ten rounds of floppydisk_calibrate: whether cylinder 0 was found
unfoldable pub calibrate_loop : ℕ → ℕ → Floppy → Option (Bool × Floppy)
calibrate_loop zero drive f = some (false, f)
calibrate_loop (suc left) drive f = and_then (floppydisk_send_command 7 f) λ f1.
    and_then (floppydisk_send_command drive f1) λ f2.
      and_then (floppydisk_check_int (floppydisk_wait_for_irq f2).1) λ (st0, cyl, f3).
        let rest = calibrate_loop left drive f3 in if cyl == 0 then some (true, f3) else rest

unfoldable pub floppydisk_calibrate : ℕ → Floppy → Option (ℤ × Floppy)
floppydisk_calibrate drive f =
    let tried =
      and_then (calibrate_loop 10 drive (floppydisk_control_motor 1 f))
        λ (found, f'). some (if found then pos 0 else negsuc 0, floppydisk_control_motor 0 f') in
    if leb 4 drive then some (negsuc 1, f) else tried

-- four times floppydisk_check_int
unfoldable pub check_ints : ℕ → Floppy → Option Floppy
check_ints zero f = some f
check_ints (suc left) f = and_then (floppydisk_check_int f) λ (st0, cyl, f'). check_ints left f'

unfoldable pub floppydisk_reset : Floppy → Option (ℕ × Floppy)
floppydisk_reset f =
    let (check_for_timeout, f1) =
      floppydisk_wait_for_irq (floppydisk_write_dor 12 (floppydisk_write_dor 0 f)) in
    let ready = and_then (check_ints 4 f1) λ f2.
      and_then (floppydisk_drive_data 3 16 240 1 (floppydisk_write_ccr 0 f2))
        λ f3. and_then (floppydisk_calibrate f3.current_drive f3) λ (found, f4). some (1, f4) in
    if check_for_timeout == 0 then some (0, f1) else ready

unfoldable pub send_commands : List ℕ → Floppy → Option Floppy
send_commands [] f = some f
send_commands (cmd ∷ cmds) f = and_then (floppydisk_send_command cmd f) λ f'. send_commands cmds f'

unfoldable pub read_results : ℕ → Floppy → Option Floppy
read_results zero f = some f
read_results (suc left) f = and_then (floppydisk_read_data f) λ (v, f'). read_results left f'

unfoldable pub floppydisk_read_sector_imp : ℕ → ℕ → ℕ → Floppy → Option Floppy
floppydisk_read_sector_imp head track sector f =
    let commands =
      bit_or (bit_or (bit_or 6 0x80) 0x20) 0x40
      ∷ u8 (bit_or (head <<< 2) f.current_drive)
      ∷ track
      ∷ head
      ∷ sector
      ∷ 2
      ∷ (if leb 18 (sector + 1) then 18 else sector + 1)
      ∷ 27
      ∷ 0xff
      ∷ [] in
    and_then (dma_init_floppydisk f.dma_buffer 512 f) λ (status, f1).
      and_then (dma_set_read 2 f1.ports) λ m.
        and_then (send_commands commands (record f1 { ports = m })) λ f2.
          and_then (read_results 7 (floppydisk_wait_for_irq f2).1)
            λ f3. and_then (floppydisk_check_int f3) λ (st0, cyl, f4). some f4

unfoldable pub seek_loop : ℕ → ℕ → ℕ → Floppy → Option (ℤ × Floppy)
seek_loop zero cyl head f = some (negsuc 0, f)
seek_loop (suc left) cyl head f =
    and_then (send_commands (15 ∷ u8 (bit_or (head <<< 2) f.current_drive) ∷ cyl ∷ []) f) λ f1.
      and_then (floppydisk_check_int (floppydisk_wait_for_irq f1).1) λ (st0, cyl0, f2).
        let rest = seek_loop left cyl head f2 in if cyl0 == cyl then some (pos 0, f2) else rest

unfoldable pub floppydisk_seek : ℕ → ℕ → Floppy → Option (ℤ × Floppy)
floppydisk_seek cyl head f =
    if leb 4 f.current_drive then some (negsuc 0, f) else seek_loop 10 cyl head f

-- head, track and sector
pub floppydisk_lba2chs : ℕ → ℕ × ℕ × ℕ
floppydisk_lba2chs lba = (lba % (18 * 2) / 18, lba / (18 * 2), lba % 18 + 1)

unfoldable pub floppydisk_set_working_drive : ℕ → Floppy → Floppy
floppydisk_set_working_drive drive f = if ltb drive 4 then record f { current_drive = drive } else f

unfoldable pub is_fdd_present : Floppy → Option (ℕ × Floppy)
is_fdd_present f =
    let f1 = sleep (record f { ports = outportb 0x70 0x10 f.ports }) in
    and_then (inportb 0x71 f1.ports)
      λ (check, m). some (if check >>> 4 == 0 then 0 else 1, record f1 { ports = m })

unfoldable pub floppydisk_read_sector : ℕ → Floppy → Option (ℕ × Floppy)
floppydisk_read_sector lba f =
    let (head, track, sector) = floppydisk_lba2chs lba in
    let present : Floppy → Option (ℕ × Floppy) = λ f1.
      and_then (floppydisk_seek (u8 track) (u8 head) (floppydisk_control_motor 1 f1))
        λ (result, f2). elim result [
          | pos zero ↦
              and_then (floppydisk_read_sector_imp (u8 head) (u8 track) (u8 sector) f2)
                λ f3. some (f3.dma_buffer, floppydisk_control_motor 0 f3)
          | _ ↦ some (0, f2)
        ] in
    if leb 4 f.current_drive
    then some (0, f)
    else and_then (is_fdd_present f) λ (check, f1). if check == 0 then some (0, f1) else present f1
