-- ===== src/Base/Bits/Digits.antt =====
-- The lowest digit of the native `bit_and` and `bit_or`, which recurse on a bound for the digits.
use Prim.Native.Nat.{
  ℕ, zero, suc, ◌+◌, ◌*◌, ◌/◌, ◌%◌, ◌≤◌, min, max, bit_and, bit_or, digits, bitwise,
  bit_and-bitwise, bit_or-bitwise,
}
use mathlib.Core.Path.{◌≡◌, refl, ap, ◌∙◌}
use mathlib.Core.Logic.{◌⊎◌, inl, inr}
use native.Mathlib.Omega.{arith}

-- One more round than needed changes nothing, and so neither do several.
one_more_round :
    (high : ℕ → ℕ) (digit : ℕ → ℕ → ℕ) (rounds a b : ℕ)
    → a ≤ rounds
    → digits high digit (suc rounds) a b ≡ digits high digit rounds a b
one_more_round high digit zero zero b l = refl
one_more_round high digit (suc rounds) zero b l = refl
one_more_round high digit zero (suc a) b l = elim l [ ]
one_more_round high digit (suc rounds) (suc a) b l =
    omega (arith, one_more_round high digit rounds (suc a / 2) (b / 2) (omega arith))

enough_rounds :
    (high : ℕ → ℕ) (digit : ℕ → ℕ → ℕ) (rounds a b : ℕ)
    → a ≤ rounds
    → digits high digit rounds a b ≡ bitwise high digit a b
enough_rounds high digit zero a b l =
    let none_left : 0 ≡ a = omega arith in ap (λ n. digits high digit n a b) none_left
enough_rounds high digit (suc rounds) a b l =
    let reached : (a ≤ rounds) ⊎ (suc rounds ≡ a) = omega arith in
    elim reached [
      | inl below ↦
          one_more_round high digit rounds a b below ∙ enough_rounds high digit rounds a b below
      | inr exact ↦ ap (λ n. digits high digit n a b) exact
    ]

pub bit_and_digit : (a b : ℕ) → bit_and a b ≡ min (a % 2) (b % 2) + 2 * bit_and (a / 2) (b / 2)
bit_and_digit zero b = simp bit_and-bitwise (omega arith)
bit_and_digit (suc a) b =
    let shorter = enough_rounds (λ y. 0) min a (suc a / 2) (b / 2) (omega arith) in
    simp bit_and-bitwise (omega (arith, shorter))

pub bit_or_digit : (a b : ℕ) → bit_or a b ≡ max (a % 2) (b % 2) + 2 * bit_or (a / 2) (b / 2)
bit_or_digit zero b = simp bit_or-bitwise (omega arith)
bit_or_digit (suc a) b =
    let shorter = enough_rounds (λ y. y) max a (suc a / 2) (b / 2) (omega arith) in
    simp bit_or-bitwise (omega (arith, shorter))
