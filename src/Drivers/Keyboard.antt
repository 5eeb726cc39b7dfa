-- ===== src/Drivers/Keyboard.antt =====
-- Drivers/keyboard/keyboard_driver.c: the scan codes, the interrupt handler and the ASCII of a key.
--
-- The static variables are the fields of a record. A loop that polls the controller reads the
-- statuses the controller answers, one after the other.
pub mod Handler
pub mod Ascii
pub mod Status
use sea_star_os.Base.{and_then}
use sea_star_os.Base.{
  ℕ, zero, suc, ◌+◌, ◌-◌, ◌*◌, ◌/◌, ◌%◌, ◌^◌, ◌≤◌, ◌<◌, min, max, bit_and, bit_or, ◌≡◌, refl, sym,
  ap, ◌∙◌, ◌≢◌, ◌↔◌, ◌⊎◌, inl, inr, Bool, true, false, not, ◌&&◌, ◌||◌, Option, none, some, List,
  [], ◌∷◌, ◌++◌, map, arith, ltb, leb, ◌==◌, if◌then◌else◌, ==_iff, Bool-cases, Option-cases, u8,
  u16, u32, sub32, not32, ◌<<<◌, ◌>>>◌, length, get_elem?, get_or, set, length-append, length-set,
  get_elem?-set_self, get_elem?-set_ne, get_elem?-past, update, update_lem, test_bit, test_bit-le,
  test_bit-or, test_bit-and, test_bit-zero, test_bit-pow, test_bit-complement, word_ext,
  bit_and-zero, bit_and-pow, bit_and-lt, bit_or-lt, pow-lt, test_bit_of_clear, test_bit_of_set,
  bit_or-disjoint, test_bit-high, test_bit-low, test_bit-shifted, test_bit_of_lt, ℤ, pos, negsuc,
  sub_ℕ, all_below, all_below_sound,
}
use sea_star_os.Arch.Ports.{Ports, inportb, outportb}
use sea_star_os.Arch.Pic.{interruptdone}

abbrev pub key_lshift : ℕ
key_lshift = 0x4002

abbrev pub key_lctrl : ℕ
key_lctrl = 0x4003

abbrev pub key_lalt : ℕ
key_lalt = 0x4004

abbrev pub key_rshift : ℕ
key_rshift = 0x4006

abbrev pub key_rctrl : ℕ
key_rctrl = 0x4007

abbrev pub key_ralt : ℕ
key_ralt = 0x4008

abbrev pub key_capslock : ℕ
key_capslock = 0x4001

abbrev pub key_kp_numlock : ℕ
key_kp_numlock = 0x300f

abbrev pub key_scrolllock : ℕ
key_scrolllock = 0x4010

abbrev pub key_unknown : ℕ
key_unknown = 0x4012

-- the key of each make code; the comments of the last nine rows do not count them right
abbrev pub keyboard_scancode_std : List ℕ
keyboard_scancode_std =
    key_unknown ∷ 0x1001 ∷ b'1' ∷ b'2' ∷ b'3' ∷ b'4' ∷ b'5' ∷ b'6' ∷ b'7' ∷ b'8' ∷ b'9' ∷ b'0'
    ∷ b'-' ∷ b'=' ∷ 8 ∷ 0x4000 ∷ b'q' ∷ b'w' ∷ b'e' ∷ b'r' ∷ b't' ∷ b'y' ∷ b'u' ∷ b'i' ∷ b'o' ∷ b'p'
    ∷ b'[' ∷ b']' ∷ b'\r' ∷ key_lctrl ∷ b'a' ∷ b's' ∷ b'd' ∷ b'f' ∷ b'g' ∷ b'h' ∷ b'j' ∷ b'k' ∷ b'l'
    ∷ b';' ∷ 39 ∷ b'`' ∷ key_lshift ∷ 92 ∷ b'z' ∷ b'x' ∷ b'c' ∷ b'v' ∷ b'b' ∷ b'n' ∷ b'm' ∷ b','
    ∷ b'.' ∷ b'/' ∷ key_rshift ∷ b'*' ∷ key_ralt ∷ b' ' ∷ key_capslock ∷ 0x1201 ∷ 0x1202 ∷ 0x1203
    ∷ 0x1204 ∷ 0x1205 ∷ 0x1206 ∷ 0x1207 ∷ 0x1208 ∷ 0x1209 ∷ 0x120a ∷ key_kp_numlock ∷ key_scrolllock
    ∷ 0x400c ∷ b'8' ∷ 0x400e ∷ b'2' ∷ b'3' ∷ b'0' ∷ b'.' ∷ key_unknown ∷ key_unknown ∷ key_unknown
    ∷ 0x120b ∷ 0x120c ∷ []

pub record Keyboard : Type 0 where
  pub scancode : ℕ
  pub numlock : ℕ
  pub scrolllock : ℕ
  pub capslock : ℕ
  pub shift : ℕ
  pub alt : ℕ
  pub ctrl : ℕ
  pub bat_response : ℕ
  pub diag_response : ℕ
  pub resend_response : ℕ
  pub is_disabled : ℕ
  pub extendedscancode : ℕ

-- the loop that polls until the input buffer is clear, over the statuses `seen` that follow: `none`
-- where it never is
unfoldable pub wait_input_clear : List ℕ → Option (List ℕ)
wait_input_clear [] = none
wait_input_clear (v ∷ vs) =
    let rest = wait_input_clear vs in if bit_and v 2 == 0 then some vs else rest

unfoldable pub send_at : ℕ → ℕ → Ports → Option Ports
send_at port cmd m = elim (wait_input_clear (m.input 0x64)) [
  | none ↦ none
  | some vs ↦ some (outportb port cmd (record m { input = update m.input 0x64 vs }))
]

unfoldable pub keyboard_ctrl_send_cmd : ℕ → Ports → Option Ports
keyboard_ctrl_send_cmd cmd m = send_at 0x64 cmd m

unfoldable pub keyboard_enc_send_cmd : ℕ → Ports → Option Ports
keyboard_enc_send_cmd cmd m = send_at 0x60 cmd m

-- the masks are decimal in the source
unfoldable pub leds_byte : ℕ → ℕ → ℕ → ℕ
leds_byte num caps scroll =
    let data1 = if scroll == 1 then bit_or 0 1 else bit_and 0 1 in
    let data2 = if num == 1 then bit_or data1 10 else bit_and data1 11 in
    u8 (if caps == 1 then bit_or data2 100 else bit_and data2 111)

unfoldable pub kkeyboard_set_leds : ℕ → ℕ → ℕ → Ports → Option Ports
kkeyboard_set_leds num caps scroll m =
    and_then (keyboard_enc_send_cmd 0xED m)
      λ m'. keyboard_enc_send_cmd (leds_byte num caps scroll) m'

-- `_lock = (_lock==1) ? 0 : 1`
unfoldable pub flip : ℕ → ℕ
flip lock = if lock == 1 then 0 else 1

unfoldable pub release_key : Keyboard → ℕ → Keyboard
release_key k key =
    if key == key_lctrl || key == key_rctrl
    then record k { ctrl = 0 }
    else if key == key_lshift || key == key_rshift
    then record k { shift = 0 }
    else k

-- the lock and modifier of a pressed key
unfoldable pub press_key : Keyboard → ℕ → Keyboard
press_key k key =
    if key == key_lctrl || key == key_rctrl
    then record k { ctrl = 1 }
    else if key == key_lshift || key == key_rshift
    then record k { shift = 1 }
    else if key == key_lalt || key == key_ralt
    then record k { alt = 1 }
    else if key == key_capslock
    then record k { capslock = flip k.capslock }
    else if key == key_kp_numlock
    then record k { numlock = flip k.numlock }
    else if key == key_scrolllock
    then record k { scrolllock = flip k.scrolllock }
    else k

abbrev pub is_lock : ℕ → Bool
is_lock key = key == key_capslock || key == key_kp_numlock || key == key_scrolllock

-- the last switch, on the code after the break bit is taken off
pub check_error : Keyboard → ℕ → Keyboard
check_error k code =
    if code == 0xFC
    then record k { bat_response = 0 }
    else if code == 0xFD
    then record k { diag_response = 0 }
    else if code == 0xFE
    then record k { resend_response = 1 }
    else k

-- the handling of one code that was read; a code past the table, which C leaves undefined, is `none`
pub handle_code : Keyboard → ℕ → Ports → Option (Keyboard × Ports)
handle_code k code m =
    let single = record k { extendedscancode = 0 } in
    let released : Option (Keyboard × Ports) =
      elim (get_elem? keyboard_scancode_std (code - 0x80)) [
        | none ↦ none
        | some key ↦ some (check_error (release_key single key) (code - 0x80), m)
      ] in
    let pressed : Option (Keyboard × Ports) = elim (get_elem? keyboard_scancode_std code) [
      | none ↦ none
      | some key ↦
          let k' = check_error (press_key (record single { scancode = code }) key) code in
          if is_lock key
          then elim (kkeyboard_set_leds k'.numlock k'.capslock k'.scrolllock m) [
            | none ↦ none
            | some m' ↦ some (k', m')
          ]
          else some (k', m)
    ] in
    if code == 0xE0 || code == 0xE1
    then some (check_error (record k { extendedscancode = 1 }) code, m)
    else if bit_and code 0x80 == 0
    then pressed
    else released

unfoldable pub i86_keyboard_irq_c : Keyboard → Ports → Option (Keyboard × Ports)
i86_keyboard_irq_c k m = and_then (inportb 0x64 m) λ (status, m1).
    and_then
      (if bit_and status 1 == 0
        then some (k, m1)
        else and_then (inportb 0x60 m1) λ (code, m2). handle_code k code m2)
      λ (k', m'). some (k', interruptdone 0 m')

unfoldable pub kkeyboard_get_last_key : Keyboard → Option ℕ
kkeyboard_get_last_key k =
    if k.scancode == 0 then some key_unknown else get_elem? keyboard_scancode_std k.scancode

unfoldable pub kkeyboard_discard_last_key : Keyboard → Keyboard
kkeyboard_discard_last_key k = record k { scancode = 0 }

-- the switches on a key with shift held and no caps lock
abbrev pub shifted_keys : List (ℕ × ℕ)
shifted_keys =
    (b'0', b')')
    ∷ (b'1', b'!')
    ∷ (b'2', b'@')
    ∷ (b'3', b'!')
    ∷ (b'4', b'#')
    ∷ (b'5', b'%')
    ∷ (b'6', b'^')
    ∷ (b'7', b'&')
    ∷ (b'8', b'*')
    ∷ (b'9', b'(')
    ∷ (b',', b'<')
    ∷ (b'.', b'>')
    ∷ (b'/', b'?')
    ∷ (b';', b':')
    ∷ (39, 34)
    ∷ (b'[', 123)
    ∷ (b']', 125)
    ∷ (b'`', b'~')
    ∷ (b'-', b'_')
    ∷ (b'+', b'=')
    ∷ (92, b'|')
    ∷ []

pub shifted : List (ℕ × ℕ) → ℕ → ℕ
shifted [] key = key
shifted ((from, to) ∷ rows) key = if key == from then to else shifted rows key

unfoldable pub kkeyboard_key_to_ascii : Keyboard → ℕ → ℕ
kkeyboard_key_to_ascii k code =
    let key = u8 code in
    let cased =
      if (k.shift == 1 || k.capslock == 1) && leb b'a' key && leb key b'z' then key - 32 else key in
    if leb key 0x7F
    then if k.shift == 1 && k.capslock == 0 then shifted shifted_keys cased else cased
    else 0

unfoldable pub kkeyboard_disable : Keyboard → Ports → Option (Keyboard × Ports)
kkeyboard_disable k m =
    and_then (keyboard_ctrl_send_cmd 0xAD m) λ m'. some (record k { is_disabled = 1 }, m')

unfoldable pub kkeyboard_enable : Keyboard → Ports → Option (Keyboard × Ports)
kkeyboard_enable k m =
    and_then (keyboard_ctrl_send_cmd 0xAE m) λ m'. some (record k { is_disabled = 0 }, m')

unfoldable pub kkeyboard_reset_system : Ports → Option Ports
kkeyboard_reset_system m =
    and_then (keyboard_ctrl_send_cmd 0xD1 m) λ m'. keyboard_enc_send_cmd 0xfe m'
