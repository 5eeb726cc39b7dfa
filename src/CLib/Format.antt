-- ===== src/CLib/Format.antt =====
-- vsprintf of Lib/stdio.c.
--
-- A format is its list of bytes, `none` for a null pointer, and stands apart from the buffer; the
-- arguments are 32-bit words. `none` is a missing argument, or a string that its array of 32 bytes
-- cannot hold.
pub mod Storing
pub mod Filling
use sea_star_os.Base.{
  ℕ, zero, suc, ◌+◌, ◌-◌, ◌*◌, ◌/◌, ◌%◌, ◌^◌, ◌≤◌, ◌<◌, min, max, bit_and, bit_or, ◌≡◌, refl, sym,
  ap, ◌∙◌, ◌≢◌, ◌↔◌, ◌⊎◌, inl, inr, Bool, true, false, not, ◌&&◌, ◌||◌, Option, none, some, List,
  [], ◌∷◌, ◌++◌, map, arith, ltb, leb, ◌==◌, if◌then◌else◌, ==_iff, Bool-cases, Option-cases, u8,
  u16, u32, sub32, not32, ◌<<<◌, ◌>>>◌, length, get_elem?, get_or, set, length-append, length-set,
  get_elem?-set_self, get_elem?-set_ne, get_elem?-past, and_then, update, update_lem, test_bit,
  test_bit-le, test_bit-or, test_bit-and, test_bit-zero, test_bit-pow, test_bit-complement,
  word_ext, bit_and-zero, bit_and-pow, bit_and-lt, bit_or-lt, pow-lt, test_bit_of_clear,
  test_bit_of_set, bit_or-disjoint, test_bit-high, test_bit-low, bit_and-u8, bit_and-u10,
  bit_and-u12, bit_and-one, bit_and-u16, test_bit-shifted, test_bit_of_lt, ℤ, pos, negsuc, sub_ℕ,
  all_below, all_below_sound,
}
use sea_star_os.CLib.Strings.{Memory}
use sea_star_os.Kernel.Display.{itoa_s}
use sea_star_os.Kernel.Display.Printf.{string_argument}

-- `strcpy (&str[loc], s)` from a local array that holds `s`
pub store_string : Memory → ℕ → List ℕ → Memory
store_string mem a [] = update mem a 0
store_string mem a (c ∷ cs) = store_string (update mem a c) (a + 1) cs

-- The conversion `%d` at the address `a` of `str[loc]`: the memory, the bytes that `loc` moves by and
-- the arguments behind it; `some none` for an unknown one, which writes nothing.
pub store_argument : ℕ → Memory → ℕ → ℕ → List ℕ → Option (Option (Memory × ℕ × List ℕ))
store_argument fuel mem a d [] =
    if d == b'c' || d == b's' || d == b'd' || d == b'i' || d == b'X' || d == b'x'
    then none
    else some none
store_argument fuel mem a d (v ∷ args) =
    let stored : Option (List ℕ) → Option (Option (Memory × ℕ × List ℕ)) =
      λ text. and_then text λ s. some (some (store_string mem a s, length s, args)) in
    if d == b'c'
    then some (some (update mem a (u8 v), 1, args))
    else if d == b'd' || d == b'i'
    then stored (itoa_s v 10 [])
    else if d == b'X' || d == b'x'
    then stored (itoa_s v 16 [])
    else if d == b's'
    then stored (string_argument fuel mem v)
    else some none

-- The loop from index `i` on, with the address `a` of `str[loc]`; its last round copies the 0 of the
-- format.
pub vsprintf_loop : ℕ → Memory → ℕ → ℕ → List ℕ → List ℕ → Option (ℕ × Memory)
vsprintf_loop fuel mem a i [] args = some (i + 1, update mem a 0)
vsprintf_loop fuel mem a i (c ∷ []) args =
    let skipped = vsprintf_loop fuel mem (a + 1) (i + 1) [] args in
    let copied = vsprintf_loop fuel (update mem a c) (a + 1) (i + 1) [] args in
    if c == b'%' then skipped else copied
vsprintf_loop fuel mem a i (c ∷ d ∷ ds) args =
    let copied = vsprintf_loop fuel (update mem a c) (a + 1) (i + 1) (d ∷ ds) args in
    let skipped = vsprintf_loop fuel mem (a + 1) (i + 1) (d ∷ ds) args in
    let converted : Option (ℕ × Memory) = and_then (store_argument fuel mem a d args) (elim [
      | none ↦ skipped
      | some (mem', n, args') ↦ vsprintf_loop fuel mem' (a + n) (i + 2) ds args'
    ]) in
    if c == b'%' then converted else copied

pub vsprintf : ℕ → Memory → ℕ → Option (List ℕ) → List ℕ → Option (ℕ × Memory)
vsprintf fuel mem str none args = some (0, mem)
vsprintf fuel mem str (some format) args =
    let written = vsprintf_loop fuel mem str 0 format args in
    if str == 0 then some (0, mem) else written
