-- ===== src/Arch/Pic.antt =====
-- Arch/x86/Hal/pic.c, and interruptdone of Hal.c: the two interrupt controllers.
use sea_star_os.Base.{
  ℕ, ◌<◌, bit_and, bit_or, ◌≡◌, refl, List, [], ◌∷◌, arith, ltb, leb, ◌==◌, if◌then◌else◌, u8,
  not32,
}
use sea_star_os.Arch.Ports.{Ports, outportb}

pub i86_pic_send_command : ℕ → ℕ → Ports → Ports
i86_pic_send_command cmd pic_num m =
    if ltb 1 pic_num then m else outportb (if pic_num == 0 then 0x20 else 0xA0) cmd m

pub i86_pic_send_data : ℕ → ℕ → Ports → Ports
i86_pic_send_data cell pic_num m =
    if ltb 1 pic_num then m else outportb (if pic_num == 0 then 0x21 else 0xA1) cell m

pub i86_pic_initialize : ℕ → ℕ → Ports → Ports
i86_pic_initialize base0 base1 m =
    let icw_init = bit_or (bit_and 0 (not32 0x10)) 0x10 in
    let icw = bit_or (bit_and icw_init (not32 1)) 1 in
    let m1 = i86_pic_send_command icw 1 (i86_pic_send_command icw 0 m) in
    let m2 = i86_pic_send_data base1 1 (i86_pic_send_data base0 0 m1) in
    let m3 = i86_pic_send_data 2 1 (i86_pic_send_data 4 0 m2) in
    let icw4 = bit_or (bit_and icw (not32 1)) 1 in
    i86_pic_send_data icw4 1 (i86_pic_send_data icw4 0 m3)

-- the end of an interrupt: the second controller is told for the lines 8 to 16, the first for all
unfoldable pub interruptdone : ℕ → Ports → Ports
interruptdone intno m =
    if ltb 16 intno
    then m
    else let m' = if leb 8 intno then i86_pic_send_command 0x20 1 m else m in
      i86_pic_send_command 0x20 0 m'

-- Initialisation writes four words to each controller, in turn, the bases of their interrupts second.
pub i86_pic_initialize_lem :
    (base0 base1 : ℕ) (ports : ℕ → List ℕ)
    → base0 < 256
    → base1 < 256
    → i86_pic_initialize base0 base1 (record { input = ports; out = [] }) ≡ record {
      input = ports;
      out =
          (0x20, 17)
          ∷ (0xA0, 17)
          ∷ (0x21, base0)
          ∷ (0xA1, base1)
          ∷ (0x21, 4)
          ∷ (0xA1, 2)
          ∷ (0x21, 17)
          ∷ (0xA1, 17)
          ∷ [];
    }
unfolding i86_pic_initialize i86_pic_send_command i86_pic_send_data outportb
i86_pic_initialize_lem base0 base1 ports h0 h1 =
    let e0 : u8 base0 ≡ base0 = omega arith in
    let e1 : u8 base1 ≡ base1 = omega arith in rw (e0, e1) refl
