-- ===== src/CLib/Numbers/Decimal.antt =====
-- What strtol and atoi read from a decimal number.
use sea_star_os.Base.{
  ℕ, zero, suc, ◌+◌, ◌-◌, ◌/◌, ◌%◌, ◌^◌, ◌≤◌, ◌<◌, min, ◌≡◌, refl, ap, ◌∙◌, ◌≢◌, inl, inr, Bool,
  true, false, none, some, List, ◌∷◌, arith, if◌then◌else◌, sub32, length,
}
use sea_star_os.CLib.Strings.{Memory, IsString}
use sea_star_os.CLib.Numbers.{
  Any, overflow, nothing, digits, isspace, skip_spaces, read_sign, read_prefix, strtol_from,
  scan_digits, end_of, strtol, atoi,
}
use sea_star_os.CLib.Numbers.Digits.{AreDigits, decimal, Holds, IsLimit, scan_digits-decimal}

-- the sign and the digits of a decimal number
abbrev pub numeral : Bool → List ℕ → List ℕ
numeral true cs = b'-' ∷ cs
numeral false cs = cs

-- the word of the number: the nearest long where it is out of range
abbrev pub long_of : Bool → ℕ → ℕ
long_of true v = sub32 0 (min v (2 ^ 31))
long_of false v = min v (2 ^ 31 - 1)

skip_none :
    (fuel : ℕ) (mem : Memory) (a : ℕ)
    → isspace (mem a) ≡ false
    → skip_spaces (suc fuel) mem a ≡ some (mem a, a + 1)
unfolding skip_spaces
skip_none fuel mem a h = rw h

strtol-sign :
    (fuel : ℕ) (mem : Memory) (a c s : ℕ)
    → skip_spaces fuel mem a ≡ some (c, s)
    → strtol fuel mem a 10 ≡ strtol_from fuel mem a 10 (read_sign mem c s)
unfolding strtol
strtol-sign fuel mem a c s p = rw p refl

abbrev cutoff_of : Bool → ℕ
cutoff_of minus = if minus then 2 ^ 31 else 2 ^ 31 - 1

strtol_from-steps :
    (fuel : ℕ) (mem : Memory) (a : ℕ) (minus : Bool) (c s acc : ℕ) (any : Any) (end : ℕ)
    → read_prefix mem 10 c s ≡ (10, c, s)
    → scan_digits fuel mem none 10 (cutoff_of minus / 10) (cutoff_of minus % 10) 0 nothing c s
      ≡ some (record { acc = acc; any = any; s = end })
    → strtol_from fuel mem a 10 (minus, c, s)
      ≡ some (
        elim any [ overflow ↦ cutoff_of minus | _ ↦ if minus then sub32 0 acc else acc ],
        end_of (record { acc = acc; any = any; s = end }) a,
      )
unfolding strtol_from
strtol_from-steps fuel mem a minus c s acc any end r e = rw (r, e) refl

strtol-steps :
    (fuel : ℕ) (mem : Memory) (a : ℕ) (minus : Bool) (c0 s0 c s acc : ℕ) (any : Any) (end : ℕ)
    → skip_spaces fuel mem a ≡ some (c0, s0)
    → read_sign mem c0 s0 ≡ (minus, c, s)
    → read_prefix mem 10 c s ≡ (10, c, s)
    → scan_digits fuel mem none 10 (cutoff_of minus / 10) (cutoff_of minus % 10) 0 nothing c s
      ≡ some (record { acc = acc; any = any; s = end })
    → strtol fuel mem a 10
      ≡ some (
        elim any [ overflow ↦ cutoff_of minus | _ ↦ if minus then sub32 0 acc else acc ],
        end_of (record { acc = acc; any = any; s = end }) a,
      )
strtol-steps fuel mem a minus c0 s0 c s acc any end p q r e =
    strtol-sign fuel mem a c0 s0 p
    ∙ ap (strtol_from fuel mem a 10) q
    ∙ strtol_from-steps fuel mem a minus c s acc any end r e

value_found :
    (minus : Bool) (acc : ℕ) (any : Any) (v : ℕ)
    → Holds (if minus then 2 ^ 31 else 2 ^ 31 - 1) acc any v
    → (elim any as (λ _. ℕ) [
      | overflow ↦ if minus then 2 ^ 31 else 2 ^ 31 - 1
      | _ ↦ if minus then sub32 0 acc else acc
    ])
      ≡ long_of minus v
value_found true acc overflow v h = ground arith
value_found true acc nothing v h = ground arith
value_found true acc digits v h = ground arith
value_found false acc overflow v h = ground arith
value_found false acc nothing v h = ground arith
value_found false acc digits v h = ground arith

end_found :
    (acc : ℕ) (any : Any) (s a : ℕ)
    → any ≢ nothing
    → end_of (record { acc = acc; any = any; s = s }) a ≡ s - 1
unfolding end_of
end_found acc overflow s a n = refl
end_found acc nothing s a n = absurd (n refl)
end_found acc digits s a n = refl

prefix_none : (mem : Memory) (c s : ℕ) → read_prefix mem 10 c s ≡ (10, c, s)
unfolding read_prefix
prefix_none mem c s = refl

sign_minus : (mem : Memory) (s : ℕ) → read_sign mem b'-' s ≡ (true, mem s, s + 1)
unfolding read_sign
sign_minus mem s = refl

sign_none : (mem : Memory) (c s : ℕ) → b'0' ≤ c → read_sign mem c s ≡ (false, c, s)
unfolding read_sign
sign_none mem c s h = ground arith

space_none : (c : ℕ) → b'-' ≤ c → isspace c ≡ false
unfolding isspace
space_none c h = ground arith

IsLimit-if : (minus : Bool) → IsLimit (if minus then 2 ^ 31 else 2 ^ 31 - 1)
IsLimit-if true = inl refl
IsLimit-if false = inr refl

-- strtol in base 10 of a decimal number with an optional minus sign gives that number, or the nearest
-- long where it does not fit, and the address behind the last digit; the text has at least one digit
-- and less bytes than there are rounds.
pub strtol-decimal :
    (minus : Bool) (c : ℕ) (cs : List ℕ) (fuel : ℕ) (mem : Memory) (a : ℕ)
    → IsString mem a (numeral minus (c ∷ cs))
    → AreDigits (c ∷ cs)
    → length cs + 2 < fuel
    → strtol fuel mem a 10
      ≡ some (long_of minus (decimal 0 (c ∷ cs)), a + length (numeral minus (c ∷ cs)))
strtol-decimal minus c cs zero mem a t d b = elim b [ ]
strtol-decimal true c cs (suc fuel) mem a t d b =
    let (acc, any, e, h, n) =
      scan_digits-decimal (c ∷ cs) (suc fuel) mem (2 ^ 31) 0 nothing 0 (a + 1) (IsLimit-if true)
        (refl, omega arith) t.2 d (omega arith) in
    let space : isspace (mem a) ≡ false = rw t.0 (space_none b'-' (omega arith)) in
    let sign : read_sign mem (mem a) (a + 1) ≡ (true, mem (a + 1), a + 1 + 1) =
      rw t.0 (sign_minus mem (a + 1)) in
    let steps =
      strtol-steps (suc fuel) mem a true (mem a) (a + 1) (mem (a + 1)) (a + 1 + 1) acc any
        (a + 1 + 1 + length (c ∷ cs)) (skip_none fuel mem a space) sign
        (prefix_none mem (mem (a + 1)) (a + 1 + 1)) e in
    let end : a + 1 + 1 + suc (length cs) - 1 ≡ a + suc (suc (length cs)) = omega arith in
    steps
    ∙ rw
        (
          value_found true acc any (decimal 0 (c ∷ cs)) h,
          end_found acc any (a + 1 + 1 + length (c ∷ cs)) a (n (inl (omega arith))),
          end,
        )
        refl
strtol-decimal false c cs (suc fuel) mem a t d b =
    let (acc, any, e, h, n) =
      scan_digits-decimal (c ∷ cs) (suc fuel) mem (2 ^ 31 - 1) 0 nothing 0 a (IsLimit-if false)
        (refl, omega arith) t d (omega arith) in
    let space : isspace (mem a) ≡ false = rw t.0 (space_none c (omega arith)) in
    let sign : read_sign mem (mem a) (a + 1) ≡ (false, mem a, a + 1) =
      rw t.0 (sign_none mem c (a + 1) d.0) in
    let steps =
      strtol-steps (suc fuel) mem a false (mem a) (a + 1) (mem a) (a + 1) acc any
        (a + 1 + length (c ∷ cs)) (skip_none fuel mem a space) sign
        (prefix_none mem (mem a) (a + 1)) e in
    let end : a + 1 + suc (length cs) - 1 ≡ a + suc (length cs) = omega arith in
    steps
    ∙ rw
        (
          value_found false acc any (decimal 0 (c ∷ cs)) h,
          end_found acc any (a + 1 + length (c ∷ cs)) a (n (inl (omega arith))),
          end,
        )
        refl

-- atoi gives the same number.
pub atoi-decimal :
    (minus : Bool) (c : ℕ) (cs : List ℕ) (fuel : ℕ) (mem : Memory) (a : ℕ)
    → IsString mem a (numeral minus (c ∷ cs))
    → AreDigits (c ∷ cs)
    → length cs + 2 < fuel
    → atoi fuel mem a ≡ some (long_of minus (decimal 0 (c ∷ cs)))
unfolding atoi
atoi-decimal minus c cs fuel mem a t d b = rw (strtol-decimal minus c cs fuel mem a t d b) refl
