-- ===== src/Kernel/Display.antt =====
-- Kernel/KernelDisplay.c: the text screen of 25 rows of 80 cells, its cursor, and numbers as text.
--
-- The video memory is a table of 16-bit cells, and `out` the bytes written to the ports of the
-- cursor, in order.
pub mod Printf
pub mod Bounds
use sea_star_os.Base.{
  ℕ, zero, suc, ◌+◌, ◌-◌, ◌*◌, ◌/◌, ◌%◌, ◌^◌, ◌≤◌, ◌<◌, min, max, bit_and, bit_or, ◌≡◌, refl, sym,
  ap, ◌∙◌, ◌≢◌, ◌↔◌, ◌⊎◌, inl, inr, Bool, true, false, not, ◌&&◌, ◌||◌, Option, none, some, List,
  [], ◌∷◌, ◌++◌, map, arith, ltb, leb, ◌==◌, if◌then◌else◌, ==_iff, Bool-cases, Option-cases, u8,
  u16, u32, sub32, not32, ◌<<<◌, ◌>>>◌, length, get_elem?, get_or, set, length-append, length-set,
  get_elem?-set_self, get_elem?-set_ne, get_elem?-past, update, update_lem, test_bit, test_bit-le,
  test_bit-or, test_bit-and, test_bit-zero, test_bit-pow, test_bit-complement, word_ext,
  bit_and-zero, bit_and-pow, bit_and-lt, bit_or-lt, pow-lt, test_bit_of_clear, test_bit_of_set,
  bit_or-disjoint, test_bit-high, test_bit-low, test_bit-shifted, test_bit_of_lt, ℤ, pos, negsuc,
  sub_ℕ, all_below, all_below_sound,
}

pub record Screen : Type 0 where
  pub x_pos : ℕ
  pub y_pos : ℕ
  pub color : ℕ
  pub video : ℕ → ℕ
  pub out : List (ℕ × ℕ)

pub kernel_update_cursor : Screen → ℕ → ℕ → Screen
kernel_update_cursor s x y =
    let location = u16 (y * 80 + x) in
    record s {
      out =
          s.out
          ++ ((0x3D4, 14) ∷ (0x3D5, u8 (location >>> 8)) ∷ (0x3D4, 15) ∷ (0x3D5, u8 location) ∷ []);
    }

-- the two loops of scroll, from cell `i` on with `left` rounds to go
pub scroll_up : ℕ → ℕ → (ℕ → ℕ) → ℕ → ℕ
scroll_up zero i video = video
scroll_up (suc left) i video = scroll_up left (i + 1) (update video i (video (i + 80)))

pub blank_cells : ℕ → ℕ → ℕ → (ℕ → ℕ) → ℕ → ℕ
blank_cells zero cell i video = video
blank_cells (suc left) cell i video = blank_cells left cell (i + 1) (update video i cell)

pub scroll : Screen → Screen
scroll s =
    if leb 25 s.y_pos
    then record s { y_pos = 24; video = blank_cells 80 b' ' 1920 (scroll_up 1920 0 s.video) }
    else s

-- the control characters; 0x80 is the backspace
pub control : Screen → ℕ → Screen
control s c =
    if c == 0x80 && not (s.x_pos == 0)
    then record s { x_pos = s.x_pos - 1 }
    else if c == 0x09
    then record s { x_pos = bit_and (u32 (s.x_pos + 8)) (not32 7) }
    else if c == b'\r'
    then record s { x_pos = 0 }
    else if c == b'\n'
    then record s { x_pos = 0; y_pos = u32 (s.y_pos + 1) }
    else s

pub put_cell : Screen → ℕ → Screen
put_cell s c =
    if leb b' ' c
    then record s {
      video = update s.video (s.y_pos * 80 + s.x_pos) (bit_or c (u16 (s.color <<< 8)));
      x_pos = u32 (s.x_pos + 1);
    }
    else s

pub wrap_row : Screen → Screen
wrap_row s = if leb 80 s.x_pos then record s { x_pos = 0; y_pos = u32 (s.y_pos + 1) } else s

pub kernel_putc : Screen → ℕ → Screen
kernel_putc s c =
    let t = wrap_row (put_cell (control s c) c) in
    let t' = if leb 25 t.y_pos then scroll t else t in kernel_update_cursor t' t'.x_pos t'.y_pos

-- the bytes of the string, one by one
unfoldable pub kernel_puts : Screen → List ℕ → Screen
kernel_puts s [] = s
kernel_puts s (c ∷ str) = kernel_puts (kernel_putc s c) str

unfoldable pub kernel_set_color : Screen → ℕ → ℕ × Screen
kernel_set_color s c = (s.color, record s { color = c })

-- The tests look at the old position.
unfoldable pub kernel_goto_xy : Screen → ℕ → ℕ → Screen
kernel_goto_xy s x y =
    let s1 = if leb s.x_pos 80 then record s { x_pos = x } else s in
    let s2 = if leb s1.y_pos 25 then record s1 { y_pos = y } else s1 in
    kernel_update_cursor s2 s2.x_pos s2.y_pos

unfoldable pub kernel_clr_scr : Screen → ℕ → Screen
kernel_clr_scr s c =
    let cell = bit_or b' ' (u16 (c <<< 8)) in
    kernel_goto_xy (record s { video = blank_cells 2000 cell 0 s.video }) 0 0

abbrev pub bchars : List ℕ
bchars =
    b'0' ∷ b'1' ∷ b'2' ∷ b'3' ∷ b'4' ∷ b'5' ∷ b'6' ∷ b'7' ∷ b'8' ∷ b'9' ∷ b'A' ∷ b'B' ∷ b'C' ∷ b'D'
    ∷ b'E' ∷ b'F' ∷ []

-- `while (i != 0)` fills tbuf from the last digit on, and the copy turns it round: a digit found
-- later goes before those found so far. `none` where the fuel runs out.
unfoldable pub itoa_loop : ℕ → ℕ → ℕ → List ℕ → Option (List ℕ)
itoa_loop zero i base digits = none
itoa_loop (suc fuel) i base digits =
    let rest = itoa_loop fuel (i / base) base (get_or bchars (i % base) 0 ∷ digits) in
    if i == 0 then some digits else rest

unfoldable pub itoa : ℕ → ℕ → Option (List ℕ)
itoa i base = if i == 0 || ltb 16 base then some (b'0' ∷ []) else itoa_loop 33 i base []

-- `i` is unsigned, so the test for a sign never holds; for a base above 16 the buffer stays as it is.
unfoldable pub itoa_s : ℕ → ℕ → List ℕ → Option (List ℕ)
itoa_s i base buf = if ltb 16 base then some buf else itoa i base

-- `none` is a null pointer, which is not written through.
unfoldable pub kernel_get_xy : Screen → Option (ℕ × ℕ) → Option (ℕ × ℕ)
kernel_get_xy s none = none
kernel_get_xy s (some old) = some (s.x_pos, s.y_pos)

abbrev pub display_get_horz : ℕ
display_get_horz = 80

abbrev pub display_get_vert : ℕ
display_get_vert = 24
