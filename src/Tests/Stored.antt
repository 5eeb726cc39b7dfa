-- ===== src/Tests/Stored.antt =====
-- Strings that the tests put into memory.
use sea_star_os.Base.{
  ℕ, ◌+◌, ◌-◌, ◌≡◌, refl, Bool, true, false, not, ◌&&◌, List, [], ◌∷◌, arith, ltb, leb, ◌==◌,
  if◌then◌else◌, ==_iff, length, get_or, set,
}
use mathlib.Core.Bool.{false≢true}
use sea_star_os.CLib.Strings.{Memory, IsString}

-- the string at `a`, over what the memory has
abbrev pub place : ℕ → List ℕ → Memory → Memory
place a s mem x = if leb a x && ltb x (a + length s) then get_or s (x - a) 0 else mem x

abbrev pub is_string : Memory → ℕ → List ℕ → Bool
is_string mem a [] = mem a == 0
is_string mem a (c ∷ cs) = mem a == c && (not (c == 0) && is_string mem (a + 1) cs)

and_true : (a b : Bool) → (a && b) ≡ true → (a ≡ true) × (b ≡ true)
and_true true b e = (refl, e)
and_true false b e = absurd (false≢true e)

pub is_string_sound :
    (mem : Memory) (a : ℕ) (s : List ℕ) → is_string mem a s ≡ true → IsString mem a s
is_string_sound mem a [] e = (==_iff _ _).0 e
is_string_sound mem a (c ∷ cs) e =
    let (here, more) = and_true (mem a == c) _ e in
    let (set, rest) = and_true (not (c == 0)) _ more in
    ((==_iff _ _).0 here, ground (arith, set), is_string_sound mem (a + 1) cs rest)
