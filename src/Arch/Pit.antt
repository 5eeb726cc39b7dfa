-- ===== src/Arch/Pit.antt =====
-- Arch/x86/Hal/pit.c and pit.h: the interval timer.
use sea_star_os.Base.{
  ℕ, zero, suc, ◌+◌, ◌*◌, ◌/◌, ◌%◌, ◌^◌, ◌<◌, bit_and, bit_or, ◌≡◌, refl, ap, false, Option, none,
  some, List, [], ◌∷◌, arith, ◌==◌, if◌then◌else◌, u8, u16, u32, not32, ◌>>>◌, bit_and-u8,
}
use sea_star_os.Arch.Ports.{Ports, inportb, outportb}
use sea_star_os.Arch.Pic.{interruptdone}

pub record Pit : Type 0 where
  pub pit_ticks : ℕ
  pub pit_isinit : ℕ

pub i86_pit_irq_c : Pit → Ports → Pit × Ports
i86_pit_irq_c p m = (record p { pit_ticks = u32 (p.pit_ticks + 1) }, interruptdone 0 m)

unfoldable pub i86_pit_set_tick_count : Pit → ℕ → ℕ × Pit
i86_pit_set_tick_count p i = (p.pit_ticks, record p { pit_ticks = i })

pub i86_pit_send_command : ℕ → Ports → Ports
i86_pit_send_command cmd m = outportb 0x43 cmd m

pub i86_pit_send_data : ℕ → ℕ → Ports → Ports
i86_pit_send_data cell counter m =
    outportb (if counter == 0 then 0x40 else if counter == 0x40 then 0x41 else 0x42) (u8 cell) m

-- A frequency whose low 16 bits are 0 divides by zero in C, and is `none`.
unfoldable pub i86_pit_start_counter : ℕ → ℕ → ℕ → Pit → Ports → Option (Pit × Ports)
i86_pit_start_counter freq counter mode p m =
    let divisor = u16 (1193181 / u16 freq) in
    let ocw1 = u8 (bit_or (bit_and 0 (not32 0xE)) mode) in
    let ocw2 = u8 (bit_or (bit_and ocw1 (not32 0x30)) 0x30) in
    let ocw3 = u8 (bit_or (bit_and ocw2 (not32 0xC0)) counter) in
    let m1 = i86_pit_send_command ocw3 m in
    let m2 = i86_pit_send_data (bit_and divisor 0xff) 0 m1 in
    let m3 = i86_pit_send_data (bit_and (divisor >>> 8) 0xff) 0 m2 in
    if freq == 0
    then some (p, m)
    else if u16 freq == 0
    then none
    else some (record p { pit_ticks = 0 }, m3)

-- `n` interrupts of the timer, one after the other
pub after_interrupts : ℕ → Pit → Ports → Pit × Ports
after_interrupts zero p m = (p, m)
after_interrupts (suc n) p m = let (p', m') = i86_pit_irq_c p m in after_interrupts n p' m'

-- After `n` interrupts the counter is `n` ticks on, modulo 2 ^ 32.
pub after_interrupts_lem :
    (n : ℕ) (p : Pit) (m : Ports)
    → (after_interrupts n p m).0.pit_ticks % 2 ^ 32 ≡ (p.pit_ticks + n) % 2 ^ 32
unfolding after_interrupts i86_pit_irq_c
after_interrupts_lem zero p m = ap (λ x. x % 2 ^ 32) (omega arith)
after_interrupts_lem (suc n) p m = omega (
  arith,
  after_interrupts_lem n (record p { pit_ticks = u32 (p.pit_ticks + 1) }) (interruptdone 0 m),
)

bytes_of :
    (d : ℕ) → d < 2 ^ 16 → u8 (u8 (bit_and d 0xff)) + u8 (u8 (bit_and (d >>> 8) 0xff)) * 2 ^ 8 ≡ d
bytes_of d h = omega (arith, bit_and-u8 d, bit_and-u8 (d >>> 8))

-- A frequency whose low 16 bits are not 0 writes one command and then two bytes to counter 0, for
-- whatever counter is asked: low byte first, they make the low 16 bits of 1193181 divided by the
-- frequency's low 16 bits. The ticks start again at 0.
pub i86_pit_start_counter_lem :
    (freq counter mode : ℕ) (p : Pit) (ports : ℕ → List ℕ)
    → freq < 2 ^ 32
    → 0 < u16 freq
    → (command : ℕ) × (low : ℕ) × (high : ℕ) × (i86_pit_start_counter freq counter mode p
          (record { input = ports; out = [] })
        ≡ some (
          record p { pit_ticks = 0 },
          record { input = ports; out = (0x43, command) ∷ (0x40, low) ∷ (0x40, high) ∷ [] },
        ))
      × (low + high * 2 ^ 8 ≡ u16 (1193181 / u16 freq))
unfolding i86_pit_start_counter i86_pit_send_command i86_pit_send_data outportb
i86_pit_start_counter_lem freq counter mode p ports h z =
    let n0 : (freq == 0) ≡ false = ground arith in
    let n1 : (u16 freq == 0) ≡ false = ground arith in
    let ocw = u8 (
      bit_or
        (bit_and
          (u8 (bit_or (bit_and (u8 (bit_or (bit_and 0 (not32 0xE)) mode)) (not32 0x30)) 0x30))
          (not32 0xC0))
        counter) in
    let d = u16 (1193181 / u16 freq) in
    (
      u8 ocw,
      u8 (u8 (bit_and d 0xff)),
      u8 (u8 (bit_and (d >>> 8) 0xff)),
      rw (n0, n1) refl,
      bytes_of (u16 (1193181 / u16 freq)) (omega arith),
    )

unfoldable pub i86_pit_read_data : ℕ → Ports → Option (ℕ × Ports)
i86_pit_read_data counter m =
    inportb (if counter == 0 then 0x40 else if counter == 0x40 then 0x41 else 0x42) m

unfoldable pub i86_pit_is_initialized : Pit → ℕ
i86_pit_is_initialized p = p.pit_isinit
