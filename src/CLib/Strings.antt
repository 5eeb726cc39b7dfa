-- ===== src/CLib/Strings.antt =====
-- Lib/string.c over a flat memory of bytes, the function from addresses to values below 256.
--
-- A pointer is an address. A loop that runs to a terminating 0 takes fuel and is `none` where the
-- fuel runs out. Characters are compared as bytes; `char` and `unsigned char` agree below 128.
pub mod Laws
pub mod Copies
use sea_star_os.Base.{
  ℕ, zero, suc, ◌+◌, ◌-◌, ◌*◌, ◌/◌, ◌%◌, ◌^◌, ◌≤◌, ◌<◌, min, max, bit_and, bit_or, ◌≡◌, refl, sym,
  ap, ◌∙◌, ◌≢◌, ◌↔◌, ◌⊎◌, inl, inr, Bool, true, false, not, ◌&&◌, ◌||◌, Option, none, some, List,
  [], ◌∷◌, ◌++◌, map, arith, ltb, leb, ◌==◌, if◌then◌else◌, ==_iff, Bool-cases, Option-cases, u8,
  u16, u32, sub32, not32, ◌<<<◌, ◌>>>◌, length, get_elem?, get_or, set, length-append, length-set,
  get_elem?-set_self, get_elem?-set_ne, update, update_lem, test_bit, test_bit-le, test_bit-or,
  test_bit-and, test_bit-zero, test_bit-pow, test_bit-complement, word_ext, bit_and-zero,
  bit_and-pow, bit_and-lt, bit_or-lt, pow-lt, test_bit_of_clear, test_bit_of_set, bit_or-disjoint,
  test_bit-high, test_bit-low, test_bit-shifted, test_bit_of_lt, ℤ, pos, negsuc, sub_ℕ, all_below,
  all_below_sound,
}

abbrev pub Memory : Type 0
Memory = ℕ → ℕ

-- the results -1, 0 and 1 of strcmp
pub data Sign : Type 0 where
  minus same plus : Sign

pub sign_of : ℕ → ℕ → Sign
sign_of a b = if a == b then same else if ltb a b then minus else plus

pub strcmp : ℕ → Memory → ℕ → ℕ → Option Sign
unfolding sign_of
strcmp zero mem str1 str2 = none
strcmp (suc fuel) mem str1 str2 =
    let rest = strcmp fuel mem (str1 + 1) (str2 + 1) in
    if mem str1 == mem str2
    then if mem str2 == 0 then some same else rest
    else some (sign_of (mem str1) (mem str2))

-- the loop `for (s = str; *s; ++s);`
unfoldable pub string_end : ℕ → Memory → ℕ → Option ℕ
string_end zero mem s = none
string_end (suc fuel) mem s =
    let rest = string_end fuel mem (s + 1) in if mem s == 0 then some s else rest

pub strlen : ℕ → Memory → ℕ → Option ℕ
strlen fuel mem str = elim (string_end fuel mem str) [ none ↦ none | some s ↦ some (s - str) ]

-- `while ((*s1++ = *s2++));`
unfoldable pub strcpy : ℕ → Memory → ℕ → ℕ → Option Memory
strcpy zero mem s1 s2 = none
strcpy (suc fuel) mem s1 s2 =
    let mem' = update mem s1 (mem s2) in
    let rest = strcpy fuel mem' (s1 + 1) (s2 + 1) in if mem s2 == 0 then some mem' else rest

unfoldable pub memcpy : ℕ → Memory → ℕ → ℕ → Memory
memcpy zero mem dest src = mem
memcpy (suc count) mem dest src = memcpy count (update mem dest (mem src)) (dest + 1) (src + 1)

-- `for ( ; count != 0; count--, temp[count] = val);` writes from the last byte down.
unfoldable pub memset : ℕ → Memory → ℕ → ℕ → Memory
memset zero mem dest val = mem
memset (suc count) mem dest val = memset count (update mem (dest + count) val) dest val

-- Memory is a table of 16-bit cells here.
unfoldable pub memsetw : ℕ → (ℕ → ℕ) → ℕ → ℕ → ℕ → ℕ
memsetw zero cells dest val = cells
memsetw (suc count) cells dest val = memsetw count (update cells dest val) (dest + 1) val

-- `some 0` is NULL.
pub strchr : ℕ → Memory → ℕ → ℕ → Option ℕ
strchr zero mem str character = none
strchr (suc fuel) mem str character =
    let rest = strchr fuel mem (str + 1) character in
    if mem str == character then some str else if mem str == 0 then some 0 else rest

unfoldable pub strcat : ℕ → Memory → ℕ → ℕ → Option Memory
strcat fuel mem dest src = elim (string_end fuel mem dest) [
  | none ↦ none
  | some end ↦ strcpy fuel mem end src
]

unfoldable pub strncmp : ℕ → Memory → ℕ → ℕ → ℤ
strncmp zero mem s1 s2 = pos 0
strncmp (suc n) mem s1 s2 =
    let rest = strncmp n mem (s1 + 1) (s2 + 1) in
    if mem s1 == mem s2 then rest else sub_ℕ (mem s1) (mem s2)

-- The bytes `s`, none of them 0, stand at `a`, and a 0 behind them.
abbrev pub IsString : Memory → ℕ → List ℕ → Type 0
IsString mem a [] = mem a ≡ 0
IsString mem a (c ∷ cs) = (mem a ≡ c) × (c ≢ 0) × IsString mem (a + 1) cs
