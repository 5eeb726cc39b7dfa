-- ===== src/Kernel/Display/Printf.antt =====
-- kernelPrintf of Kernel/KernelDisplay.c.
--
-- A format is its list of bytes, and the arguments are 32-bit words; `none` is a missing argument,
-- or a string that its array of 32 bytes cannot hold.
pub mod Pieces
use sea_star_os.Base.{
  ℕ, zero, suc, ◌+◌, ◌-◌, ◌*◌, ◌/◌, ◌%◌, ◌^◌, ◌≤◌, ◌<◌, min, max, bit_and, bit_or, ◌≡◌, refl, sym,
  ap, ◌∙◌, ◌≢◌, ◌↔◌, ◌⊎◌, inl, inr, Bool, true, false, not, ◌&&◌, ◌||◌, Option, none, some, List,
  [], ◌∷◌, ◌++◌, map, arith, ltb, leb, ◌==◌, if◌then◌else◌, ==_iff, Bool-cases, Option-cases, u8,
  u16, u32, sub32, not32, ◌<<<◌, ◌>>>◌, length, get_elem?, get_or, set, length-append, length-set,
  get_elem?-set_self, get_elem?-set_ne, get_elem?-past, and_then, update, update_lem, test_bit,
  test_bit-le, test_bit-or, test_bit-and, test_bit-zero, test_bit-pow, test_bit-complement,
  word_ext, bit_and-zero, bit_and-pow, bit_and-lt, bit_or-lt, pow-lt, test_bit_of_clear,
  test_bit_of_set, bit_or-disjoint, test_bit-high, test_bit-low, bit_and-u8, bit_and-u10,
  bit_and-u12, bit_and-one, bit_and-u16, test_bit-shifted, test_bit_of_lt, ℤ, pos, negsuc, sub_ℕ,
  all_below, all_below_sound,
}
use sea_star_os.CLib.Strings.{Memory}
use sea_star_os.Fs.Ramdisk.{read_string}
use sea_star_os.Kernel.Display.{Screen, kernel_putc, kernel_puts, itoa_s}

-- the text of a string argument, in the local array
unfoldable pub string_argument : ℕ → Memory → ℕ → Option (List ℕ)
string_argument fuel mem a =
    and_then (read_string fuel mem a) λ str. if ltb (length str) 32 then some str else none

-- the text of the conversion `%d`, and the arguments behind it; `some none` for an unknown one
pub conversion : ℕ → Memory → ℕ → List ℕ → Option (Option (List ℕ × List ℕ))
conversion fuel mem d [] =
    if d == b'c' || d == b's' || d == b'd' || d == b'i' || d == b'X' || d == b'x'
    then none
    else some none
conversion fuel mem d (a ∷ args) =
    let with_rest : Option (List ℕ) → Option (Option (List ℕ × List ℕ)) =
      λ text. and_then text λ str. some (some (str, args)) in
    if d == b'c'
    then some (some (u8 a ∷ [], args))
    else if d == b's'
    then with_rest (string_argument fuel mem a)
    else if d == b'd' || d == b'i'
    then with_rest (itoa_s a 10 [])
    else if d == b'X' || d == b'x'
    then with_rest (itoa_s a 16 [])
    else some none

-- the loop from index `i` on, and what it returns
pub kernel_printf_loop : ℕ → Memory → Screen → ℕ → List ℕ → List ℕ → Option (ℕ × Screen)
kernel_printf_loop fuel mem s i [] args = some (i, s)
kernel_printf_loop fuel mem s i (c ∷ []) args =
    if c == b'%' then some (1, s) else some (i + 1, kernel_putc s c)
kernel_printf_loop fuel mem s i (c ∷ d ∷ ds) args =
    let plain = kernel_printf_loop fuel mem (kernel_putc s c) (i + 1) (d ∷ ds) args in
    let converted : Option (ℕ × Screen) = and_then (conversion fuel mem d args) (elim [
      | none ↦ some (1, s)
      | some (text, args') ↦ kernel_printf_loop fuel mem (kernel_puts s text) (i + 2) ds args'
    ]) in
    if c == b'%' then converted else plain

pub kernel_printf : ℕ → Memory → Screen → List ℕ → List ℕ → Option (ℕ × Screen)
kernel_printf fuel mem s str args = kernel_printf_loop fuel mem s 0 str args
