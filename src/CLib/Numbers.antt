-- ===== src/CLib/Numbers.antt =====
-- Lib/stdio.c: numbers read from text, strtol, strtoul and atoi.
--
-- A long is a word of 32 bits; a negative one is its two's complement. Characters are bytes. The
-- loops over the text take fuel and are `none` where it runs out. The base is not negative.
pub mod Digits
pub mod Decimal
pub mod Printing
use sea_star_os.Base.{
  ℕ, zero, suc, ◌+◌, ◌-◌, ◌*◌, ◌/◌, ◌%◌, ◌^◌, ◌≤◌, ◌<◌, min, max, bit_and, bit_or, ◌≡◌, refl, sym,
  ap, ◌∙◌, ◌≢◌, ◌↔◌, ◌⊎◌, inl, inr, Bool, true, false, not, ◌&&◌, ◌||◌, Option, none, some, List,
  [], ◌∷◌, ◌++◌, map, arith, ltb, leb, ◌==◌, if◌then◌else◌, ==_iff, Bool-cases, Option-cases, u8,
  u16, u32, sub32, not32, ◌<<<◌, ◌>>>◌, length, get_elem?, get_or, set, length-append, length-set,
  get_elem?-set_self, get_elem?-set_ne, get_elem?-past, and_then, update, update_lem, test_bit,
  test_bit-le, test_bit-or, test_bit-and, test_bit-zero, test_bit-pow, test_bit-complement,
  word_ext, bit_and-zero, bit_and-pow, bit_and-lt, bit_or-lt, pow-lt, test_bit_of_clear,
  test_bit_of_set, bit_or-disjoint, test_bit-high, test_bit-low, bit_and-u8, bit_and-u16,
  test_bit-shifted, test_bit_of_lt, ℤ, pos, negsuc, sub_ℕ, all_below, all_below_sound,
}
use sea_star_os.CLib.Strings.{Memory}

-- the macros of ctype.h
pub isspace : ℕ → Bool
isspace c = c == b' ' || (leb 9 c && leb c b'\r')

pub isupper : ℕ → Bool
isupper c = leb b'A' c && leb c b'Z'

pub isalpha : ℕ → Bool
unfolding isupper
isalpha c = isupper c || (leb b'a' c && leb c b'z')

pub isdigit : ℕ → Bool
isdigit c = leb b'0' c && leb c b'9'

-- `c` less the character that stands for 0, and `none` where the loop breaks off
pub digit_value : ℕ → Option ℕ
unfolding isdigit isalpha isupper
digit_value c =
    if isdigit c
    then some (c - b'0')
    else if isalpha c
    then some (if isupper c then c - (b'A' - 10) else c - (b'a' - 10))
    else none

-- `any`: -1, 0 and 1
pub data Any : Type 0 where
  overflow : Any
  nothing : Any
  digits : Any

-- the state of the loop: `acc`, `any` and `s`
pub record Scan : Type 0 where
  pub acc : ℕ
  pub any : Any
  pub s : ℕ

-- the `do` loop: the first character that is no space, and the address behind it
pub skip_spaces : ℕ → Memory → ℕ → Option (ℕ × ℕ)
skip_spaces zero mem s = none
skip_spaces (suc fuel) mem s =
    let rest = skip_spaces fuel mem (s + 1) in if isspace (mem s) then rest else some (mem s, s + 1)

-- the sign, and the character and the address behind it
pub read_sign : Memory → ℕ → ℕ → Bool × ℕ × ℕ
read_sign mem c s =
    if c == b'-'
    then (true, mem s, s + 1)
    else if c == b'+'
    then (false, mem s, s + 1)
    else (false, c, s)

-- the prefixes 0x and 0b, and the base where none is given
pub read_prefix : Memory → ℕ → ℕ → ℕ → ℕ × ℕ × ℕ
read_prefix mem base c s =
    if (base == 0 || base == 16) && c == b'0' && (mem s == b'x' || mem s == b'X')
    then (16, mem (s + 1), s + 2)
    else if (base == 0 || base == 2) && c == b'0' && (mem s == b'b' || mem s == b'B')
    then (2, mem (s + 1), s + 2)
    else (if base == 0 then if c == b'0' then 8 else 10 else base, c, s)

pub scan_digit : ℕ → ℕ → ℕ → ℕ → Any → ℕ → ℕ × Any
scan_digit base cutoff cutlim acc any c =
    let over = ltb cutoff acc || (acc == cutoff && ltb cutlim c) in
    elim any [
      | overflow ↦ (acc, overflow)
      | _ ↦ if over then (acc, overflow) else (u32 (u32 (acc * base) + c), digits)
    ]

-- The loop of strtol, which takes every letter; `limit` is none there, and the base in strtoul, which
-- breaks off at a digit of the base or above.
pub scan_digits : ℕ → Memory → Option ℕ → ℕ → ℕ → ℕ → ℕ → Any → ℕ → ℕ → Option Scan
scan_digits zero mem limit base cutoff cutlim acc any c s = none
scan_digits (suc fuel) mem limit base cutoff cutlim acc any c s =
    let stop : Option Scan = some (record { acc = acc; any = any; s = s }) in
    elim (digit_value c) [
      | none ↦ stop
      | some d ↦
          let (acc', any') = scan_digit base cutoff cutlim acc any d in
          let rest = scan_digits fuel mem limit base cutoff cutlim acc' any' (mem s) (s + 1) in
          elim limit [ none ↦ rest | some l ↦ if leb l d then stop else rest ]
    ]

-- `any ? s-1 : nptr`
pub end_of : Scan → ℕ → ℕ
end_of r nptr = elim r.any [ nothing ↦ nptr | _ ↦ r.s - 1 ]

-- the rest of strtol behind the sign: the value of the long, and what `*endptr` is set to
pub strtol_from : ℕ → Memory → ℕ → ℕ → Bool × ℕ × ℕ → Option (ℕ × ℕ)
unfolding scan_digits
strtol_from fuel mem nptr base (neg, c1, s1) =
    let (base', c, s) = read_prefix mem base c1 s1 in
    let cutoff = if neg then 2 ^ 31 else 2 ^ 31 - 1 in
    and_then (scan_digits fuel mem none base' (cutoff / base') (cutoff % base') 0 nothing c s) λ r.
      some
        (elim r.any [ overflow ↦ cutoff | _ ↦ if neg then sub32 0 r.acc else r.acc ], end_of r nptr)

pub strtol : ℕ → Memory → ℕ → ℕ → Option (ℕ × ℕ)
strtol fuel mem nptr base =
    and_then (skip_spaces fuel mem nptr)
      λ (c, s). strtol_from fuel mem nptr base (read_sign mem c s)

unfoldable pub strtoul_from : ℕ → Memory → ℕ → ℕ → Bool × ℕ × ℕ → Option (ℕ × ℕ)
unfolding scan_digits
strtoul_from fuel mem nptr base (neg, c1, s1) =
    let (base', c, s) = read_prefix mem base c1 s1 in
    let top = 2 ^ 32 - 1 in
    and_then (scan_digits fuel mem (some base') base' (top / base') (top % base') 0 nothing c s)
      λ r.
        some
          (elim r.any [ overflow ↦ top | _ ↦ if neg then sub32 0 r.acc else r.acc ], end_of r nptr)

unfoldable pub strtoul : ℕ → Memory → ℕ → ℕ → Option (ℕ × ℕ)
strtoul fuel mem nptr base =
    and_then (skip_spaces fuel mem nptr)
      λ (c, s). strtoul_from fuel mem nptr base (read_sign mem c s)

pub atoi : ℕ → Memory → ℕ → Option ℕ
atoi fuel mem str = and_then (strtol fuel mem str 10) λ (value, end). some value
