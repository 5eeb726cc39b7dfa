-- ===== src/Shell/Commands.antt =====
-- run_cmd of Shell/seashell.c: which command a line names, and the loop of the shell.
--
-- The literals that the line is compared with lie in memory, at the addresses of a record.
pub mod Naming
use sea_star_os.Base.{
  ℕ, zero, suc, ◌+◌, ◌-◌, ◌*◌, ◌/◌, ◌%◌, ◌^◌, ◌≤◌, ◌<◌, min, max, bit_and, bit_or, ◌≡◌, refl, sym,
  ap, ◌∙◌, ◌≢◌, ◌↔◌, ◌⊎◌, inl, inr, Bool, true, false, not, ◌&&◌, ◌||◌, Option, none, some, List,
  [], ◌∷◌, ◌++◌, map, arith, ltb, leb, ◌==◌, if◌then◌else◌, ==_iff, Bool-cases, Option-cases, u8,
  u16, u32, sub32, not32, ◌<<<◌, ◌>>>◌, length, get_elem?, get_or, set, length-append, length-set,
  get_elem?-set_self, get_elem?-set_ne, get_elem?-past, and_then, update, update_lem, test_bit,
  test_bit-le, test_bit-or, test_bit-and, test_bit-zero, test_bit-pow, test_bit-complement,
  word_ext, bit_and-zero, bit_and-pow, bit_and-lt, bit_or-lt, pow-lt, test_bit_of_clear,
  test_bit_of_set, bit_or-disjoint, test_bit-high, test_bit-low, bit_and-u8, bit_and-u10,
  bit_and-u12, bit_and-one, bit_and-u16, test_bit-shifted, test_bit_of_lt, ℤ, pos, negsuc, sub_ℕ,
  all_below, all_below_sound,
}
use sea_star_os.CLib.Strings.{Memory, Sign, minus, same, plus, strcmp}

pub data Command : Type 0 where
  halt : Command
  floppydump : Command
  cat : Command
  cd : Command
  ls : Command
  cls : Command
  time : Command
  elf32 : Command
  help : Command
  unknown_command : Command

-- the names, in the order in which they are tried
abbrev pub names : List (Command × List ℕ)
names =
    (halt, b'h' ∷ b'a' ∷ b'l' ∷ b't' ∷ [])
    ∷ (floppydump, b'f' ∷ b'l' ∷ b'o' ∷ b'p' ∷ b'p' ∷ b'y' ∷ b'd' ∷ b'u' ∷ b'm' ∷ b'p' ∷ [])
    ∷ (cat, b'c' ∷ b'a' ∷ b't' ∷ [])
    ∷ (cd, b'c' ∷ b'd' ∷ [])
    ∷ (ls, b'l' ∷ b's' ∷ [])
    ∷ (cls, b'c' ∷ b'l' ∷ b's' ∷ [])
    ∷ (time, b't' ∷ b'i' ∷ b'm' ∷ b'e' ∷ [])
    ∷ (elf32, b'e' ∷ b'l' ∷ b'f' ∷ b'3' ∷ b'2' ∷ [])
    ∷ (help, b'h' ∷ b'e' ∷ b'l' ∷ b'p' ∷ [])
    ∷ []

-- the chain of comparisons, over the commands that are left; `literal` has their names' addresses
pub which_command : ℕ → Memory → ℕ → (Command → ℕ) → List (Command × List ℕ) → Option Command
which_command fuel mem cmd_buf literal [] = some unknown_command
which_command fuel mem cmd_buf literal ((c, name) ∷ cs) =
    let rest = which_command fuel mem cmd_buf literal cs in
    and_then (strcmp fuel mem cmd_buf (literal c))
      (elim [ same ↦ some c | minus ↦ rest | plus ↦ rest ])

-- what a command does, then 1 for halt
unfoldable pub run_cmd :
    {S : Type 0} → (Command → S → Option S) → ℕ → Memory → ℕ → (Command → ℕ) → S → Option (ℕ × S)
run_cmd perform fuel mem cmd_buf literal s =
    and_then (which_command fuel mem cmd_buf literal names)
      λ c. and_then (perform c s) λ s'. some (elim c [ halt ↦ 1 | _ ↦ 0 ], s')
