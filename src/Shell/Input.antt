-- ===== src/Shell/Input.antt =====
-- getch and get_cmd of Shell/seashell.c.
--
-- The input is the list of the states of the keyboard driver that the polls see, one after the other;
-- `none` is a wait for a key that never comes, or a scan code past the driver's table.
pub mod Editing
use sea_star_os.Base.{
  ℕ, zero, suc, ◌+◌, ◌-◌, ◌*◌, ◌/◌, ◌%◌, ◌^◌, ◌≤◌, ◌<◌, min, max, bit_and, bit_or, ◌≡◌, refl, sym,
  ap, ◌∙◌, ◌≢◌, ◌↔◌, ◌⊎◌, inl, inr, Bool, true, false, not, ◌&&◌, ◌||◌, Option, none, some, List,
  [], ◌∷◌, ◌++◌, map, arith, ltb, leb, ◌==◌, if◌then◌else◌, ==_iff, Bool-cases, Option-cases, u8,
  u16, u32, sub32, not32, ◌<<<◌, ◌>>>◌, length, get_elem?, get_or, set, length-append, length-set,
  get_elem?-set_self, get_elem?-set_ne, get_elem?-past, and_then, update, update_lem, test_bit,
  test_bit-le, test_bit-or, test_bit-and, test_bit-zero, test_bit-pow, test_bit-complement,
  word_ext, bit_and-zero, bit_and-pow, bit_and-lt, bit_or-lt, pow-lt, test_bit_of_clear,
  test_bit_of_set, bit_or-disjoint, test_bit-high, test_bit-low, bit_and-u8, bit_and-u10,
  bit_and-u12, bit_and-one, bit_and-u16, test_bit-shifted, test_bit_of_lt, ℤ, pos, negsuc, sub_ℕ,
  all_below, all_below_sound,
}
use sea_star_os.Drivers.Keyboard.{
  Keyboard, key_unknown, kkeyboard_get_last_key, kkeyboard_discard_last_key, kkeyboard_key_to_ascii,
}
use sea_star_os.Kernel.Display.{Screen, kernel_putc, kernel_goto_xy}

abbrev pub key_return : ℕ
key_return = b'\r'

abbrev pub key_backspace : ℕ
key_backspace = 8

-- the key, the driver behind it and the states to come
unfoldable pub getch : List Keyboard → Option (ℕ × Keyboard × List Keyboard)
getch [] = none
getch (k ∷ ks) =
    let rest = getch ks in
    and_then (kkeyboard_get_last_key k)
      λ key. if key == key_unknown then rest else some (key, kkeyboard_discard_last_key k, ks)

-- the last character is taken off the screen
unfoldable pub rub_out : Screen → Screen
rub_out s =
    if ltb 0 s.x_pos
    then (let x = s.x_pos - 1 in
        kernel_goto_xy (kernel_putc (kernel_goto_xy s x s.y_pos) b' ') x s.y_pos)
    else kernel_goto_xy (kernel_putc s b' ') 80 (sub32 s.y_pos 1)

pub record Line : Type 0 where
  pub buf : ℕ → ℕ
  pub i : ℕ
  pub screen : Screen
  pub input : List Keyboard

-- what one key does, Return apart
unfoldable pub type_key : Line → ℕ → Keyboard → Line
type_key line key k =
    let c = kkeyboard_key_to_ascii k key in
    if key == key_backspace
    then if ltb 0 line.i then record line { screen = rub_out line.screen; i = line.i - 1 } else line
    else if not (c == 0) && not (key == 0x1001)
    then record line {
      screen = kernel_putc line.screen c;
      buf = update line.buf line.i c;
      i = line.i + 1;
    }
    else line

unfoldable pub get_cmd_loop : ℕ → ℕ → Line → Option Line
get_cmd_loop zero n line = none
get_cmd_loop (suc fuel) n line =
    let typed = and_then (getch line.input) λ (key, k, input).
      let rest = get_cmd_loop fuel n (type_key (record line { input = input }) key k) in
      if key == key_return then some (record line { input = input }) else rest in
    if ltb line.i n then typed else some line

unfoldable pub get_cmd : ℕ → (ℕ → ℕ) → ℕ → Screen → List Keyboard → Option Line
get_cmd fuel buf n screen input =
    and_then (get_cmd_loop fuel n (record { buf = buf; i = 0; screen = screen; input = input }))
      λ line. some (record line { buf = update line.buf line.i 0 })
