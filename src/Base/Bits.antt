-- ===== src/Base/Bits.antt =====
-- `&`, `|` and `~` read bit by bit.
mod Digits
use Digits.{bit_and_digit, bit_or_digit}
use Prim.Native.Nat.{
  ℕ, zero, suc, ◌+◌, ◌-◌, ◌*◌, ◌/◌, ◌%◌, ◌^◌, ◌≤◌, ◌<◌, min, max, bit_and, bit_or, bit_and-bitwise,
}
use mathlib.Core.Path.{◌≡◌, refl, ◌∙◌, ap}
use native.Mathlib.Nat.{pow-suc, one-le-pow}
use native.Mathlib.Omega.{arith}
use mathlib.Core.Logic.{◌⊎◌, inl, inr}
use mathlib.Core.Bool.{true, false}
use sea_star_os.Base.Tests.{◌==◌, if◌then◌else◌}

-- bit `j` of `w`, 0 or 1
unfoldable pub test_bit : ℕ → ℕ → ℕ
test_bit w zero = w % 2
test_bit w (suc j) = test_bit (w / 2) j

pub test_bit-le : (w j : ℕ) → test_bit w j ≤ 1
unfolding test_bit
test_bit-le w zero = omega arith
test_bit-le w (suc j) = test_bit-le (w / 2) j

test_bit_cases : (b : ℕ) → b ≤ 1 → (b ≡ 0) ⊎ (b ≡ 1)
test_bit_cases b h = omega arith

half-bit_or : (a b : ℕ) → bit_or a b / 2 ≡ bit_or (a / 2) (b / 2)
half-bit_or a b = omega (arith, bit_or_digit a b)

half-bit_and : (a b : ℕ) → bit_and a b / 2 ≡ bit_and (a / 2) (b / 2)
half-bit_and a b = omega (arith, bit_and_digit a b)

pub test_bit-or : (a b j : ℕ) → test_bit (bit_or a b) j ≡ max (test_bit a j) (test_bit b j)
unfolding test_bit
test_bit-or a b zero = omega (arith, bit_or_digit a b)
test_bit-or a b (suc j) = rw (half-bit_or a b) (test_bit-or (a / 2) (b / 2) j)

pub test_bit-and : (a b j : ℕ) → test_bit (bit_and a b) j ≡ min (test_bit a j) (test_bit b j)
unfolding test_bit
test_bit-and a b zero = omega (arith, bit_and_digit a b)
test_bit-and a b (suc j) = rw (half-bit_and a b) (test_bit-and (a / 2) (b / 2) j)

pub test_bit-zero : (j : ℕ) → test_bit 0 j ≡ 0
unfolding test_bit
test_bit-zero zero = refl
test_bit-zero (suc j) = test_bit-zero j

half-pow : (k : ℕ) → 2 ^ suc k / 2 ≡ 2 ^ k
half-pow k = omega (arith, pow-suc 2 k)

pub test_bit-pow : (k j : ℕ) → test_bit (2 ^ k) j ≡ (if j == k then 1 else 0)
unfolding test_bit
test_bit-pow zero zero = refl
test_bit-pow zero (suc j) = ground (arith, test_bit-zero j)
test_bit-pow (suc k) zero = ground (arith, pow-suc 2 k)
test_bit-pow (suc k) (suc j) = rw (half-pow k) (ground (arith, test_bit-pow k j))

half-complement : (n m : ℕ) → m < 2 ^ suc n → (2 ^ suc n - 1 - m) / 2 ≡ 2 ^ n - 1 - m / 2
half-complement n m h = omega (arith, pow-suc 2 n)

-- `~m` flips each of the `n` bits of `m`.
pub test_bit-complement :
    (n m j : ℕ) → m < 2 ^ n → j < n → test_bit (2 ^ n - 1 - m) j ≡ 1 - test_bit m j
unfolding test_bit
test_bit-complement zero m j h l = elim l [ ]
test_bit-complement (suc n) m zero h l = omega (arith, pow-suc 2 n)
test_bit-complement (suc n) m (suc j) h l =
    rw (half-complement n m h)
      (test_bit-complement n (m / 2) j (omega (arith, pow-suc 2 n)) (omega arith))

-- Two words of `n` bits with the same bits are equal.
pub word_ext :
    (n a b : ℕ) → a < 2 ^ n → b < 2 ^ n → ((j : ℕ) → j < n → test_bit a j ≡ test_bit b j) → a ≡ b
unfolding test_bit
word_ext zero a b ha hb h = omega arith
word_ext (suc n) a b ha hb h = omega (
  arith,
  h 0 (omega arith),
  word_ext n (a / 2) (b / 2) (omega (arith, pow-suc 2 n)) (omega (arith, pow-suc 2 n))
      (λ j l. h (suc j) (omega arith)),
)

pub bit_and-zero : (a : ℕ) → bit_and a 0 ≡ 0
bit_and-zero a = below a a (omega arith)
  where
    below : (n a : ℕ) → a ≤ n → bit_and a 0 ≡ 0
    below n zero h = refl
    below zero (suc a) h = absurd (omega arith)
    below (suc n) (suc a) h =
        omega (arith, bit_and_digit (suc a) 0, below n (suc a / 2) (omega arith))

bit_and-double : (w p : ℕ) → bit_and w (2 * p) ≡ bit_and (w / 2) p * 2
bit_and-double w p =
    let e : 2 * p / 2 ≡ p = omega arith in
    let d = bit_and_digit w (2 * p) in omega (arith, rw e at d)

pub bit_and-pow : (w k : ℕ) → bit_and w (2 ^ k) ≡ test_bit w k * 2 ^ k
unfolding test_bit
bit_and-pow w zero = omega (arith, bit_and_digit w 1, bit_and-zero (w / 2))
bit_and-pow w (suc k) =
    let e : 2 ^ suc k ≡ 2 * 2 ^ k = omega (arith, pow-suc 2 k) in
    rw (e, bit_and-double w (2 ^ k)) (grind (arith, bit_and-pow (w / 2) k))

zero-bit_and : (b : ℕ) → bit_and 0 b ≡ 0
zero-bit_and b = bit_and-bitwise 0 b

-- The masks keep a word within its width.
pub bit_and-lt : (n a b : ℕ) → a < 2 ^ n → bit_and a b < 2 ^ n
bit_and-lt zero a b h = ground (arith, zero-bit_and b)
bit_and-lt (suc n) a b h = omega (
  arith,
  pow-suc 2 n,
  bit_and_digit a b,
  bit_and-lt n (a / 2) (b / 2) (omega (arith, pow-suc 2 n)),
)

pub bit_or-lt : (n a b : ℕ) → a < 2 ^ n → b < 2 ^ n → bit_or a b < 2 ^ n
bit_or-lt zero a b h g = ground arith
bit_or-lt (suc n) a b h g = omega (
  arith,
  pow-suc 2 n,
  bit_or_digit a b,
  bit_or-lt n (a / 2) (b / 2) (omega (arith, pow-suc 2 n)) (omega (arith, pow-suc 2 n)),
)

pub pow-lt : (k n : ℕ) → k < n → 2 ^ k < 2 ^ n
pow-lt k zero h = elim h [ ]
pow-lt zero (suc n) h = omega (arith, pow-suc 2 n, one-le-pow n 2)
pow-lt (suc k) (suc n) h = omega (arith, pow-suc 2 n, pow-suc 2 k, pow-lt k n (omega arith))

-- The test `w & (1 << k)` of C reads bit `k`.
pub test_bit_of_clear : (w k : ℕ) → (bit_and w (2 ^ k) == 0) ≡ true → test_bit w k ≡ 0
test_bit_of_clear w k h = elim (test_bit_cases (test_bit w k) (test_bit-le w k)) [
  | inl e ↦ e
  | inr e ↦ ground (arith, bit_and-pow w k, one-le-pow k 2)
]

pub test_bit_of_set : (w k : ℕ) → (bit_and w (2 ^ k) == 0) ≡ false → test_bit w k ≡ 1
test_bit_of_set w k h = elim (test_bit_cases (test_bit w k) (test_bit-le w k)) [
  | inl e ↦ ground (arith, bit_and-pow w k)
  | inr e ↦ e
]

-- A multiple of 2 ^ n has no bit below `n`.
pub test_bit-shifted : (n p j : ℕ) → j < n → test_bit (p * 2 ^ n) j ≡ 0
unfolding test_bit
test_bit-shifted zero p j h = elim h [ ]
test_bit-shifted (suc n) p zero h =
    let e : p * 2 ^ suc n ≡ 2 * (p * 2 ^ n) = omega (arith, ap (λ (t : ℕ). p * t) (pow-suc 2 n)) in
    rw e (omega arith)
test_bit-shifted (suc n) p (suc j) h =
    let e : p * 2 ^ suc n ≡ 2 * (p * 2 ^ n) = omega (arith, ap (λ (t : ℕ). p * t) (pow-suc 2 n)) in
    let d : 2 * (p * 2 ^ n) / 2 ≡ p * 2 ^ n = omega arith in
    rw (e, d) (test_bit-shifted n p j (omega arith))

-- A number below 2 ^ n has no bit from `n` on.
pub test_bit_of_lt : (n a j : ℕ) → a < 2 ^ n → n ≤ j → test_bit a j ≡ 0
unfolding test_bit
test_bit_of_lt zero a j h l = let e : a ≡ 0 = omega arith in rw e (test_bit-zero j)
test_bit_of_lt (suc n) a zero h l = absurd (omega arith)
test_bit_of_lt (suc n) a (suc j) h l =
    test_bit_of_lt n (a / 2) j (omega (arith, pow-suc 2 n)) (omega arith)

-- The bits below `n` are those of the remainder.
pub test_bit-low : (n q r j : ℕ) → j < n → test_bit (q * 2 ^ n + r) j ≡ test_bit r j
unfolding test_bit
test_bit-low zero q r j h = elim h [ ]
test_bit-low (suc n) q r zero h =
    let e : q * 2 ^ suc n ≡ 2 * (q * 2 ^ n) = omega (arith, ap (λ (t : ℕ). q * t) (pow-suc 2 n)) in
    rw e (omega arith)
test_bit-low (suc n) q r (suc j) h =
    let e : q * 2 ^ suc n ≡ 2 * (q * 2 ^ n) = omega (arith, ap (λ (t : ℕ). q * t) (pow-suc 2 n)) in
    let d : (2 * (q * 2 ^ n) + r) / 2 ≡ q * 2 ^ n + r / 2 = omega arith in
    rw (e, d) (test_bit-low n q (r / 2) j (omega arith))

-- The bits from `n` on are those of the quotient.
pub test_bit-high :
    (n q r j : ℕ) → r < 2 ^ n → n ≤ j → test_bit (q * 2 ^ n + r) j ≡ test_bit q (j - n)
unfolding test_bit
test_bit-high zero q r j h l =
    let e : q * 1 + r ≡ q = omega arith in let d : j - 0 ≡ j = omega arith in rw (e, d)
test_bit-high (suc n) q r zero h l = elim l [ ]
test_bit-high (suc n) q r (suc j) h l =
    let e : q * 2 ^ suc n ≡ 2 * (q * 2 ^ n) = omega (arith, ap (λ (t : ℕ). q * t) (pow-suc 2 n)) in
    let d : (2 * (q * 2 ^ n) + r) / 2 ≡ q * 2 ^ n + r / 2 = omega arith in
    let s : suc j - suc n ≡ j - n = omega arith in
    rw (e, d, s) (test_bit-high n q (r / 2) j (omega (arith, pow-suc 2 n)) (omega arith))

bit_or-zero : (a : ℕ) → bit_or a 0 ≡ a
bit_or-zero a = below a a (omega arith)
  where
    below : (n a : ℕ) → a ≤ n → bit_or a 0 ≡ a
    below n zero h = refl
    below zero (suc a) h = absurd (omega arith)
    below (suc n) (suc a) h =
        omega (arith, bit_or_digit (suc a) 0, below n (suc a / 2) (omega arith))

-- `|` of a multiple of 2 ^ n and a number below 2 ^ n is their sum.
pub bit_or-disjoint : (n q r : ℕ) → r < 2 ^ n → bit_or (q * 2 ^ n) r ≡ q * 2 ^ n + r
bit_or-disjoint zero q r h = let e : r ≡ 0 = omega arith in rw e (bit_or-zero (q * 1) ∙ omega arith)
bit_or-disjoint (suc n) q r h =
    let e : q * 2 ^ suc n ≡ 2 * (q * 2 ^ n) = omega (arith, ap (λ (t : ℕ). q * t) (pow-suc 2 n)) in
    let d : 2 * (q * 2 ^ n) / 2 ≡ q * 2 ^ n = omega arith in
    let ih = bit_or-disjoint n q (r / 2) (omega (arith, pow-suc 2 n)) in
    let step = bit_or_digit (2 * (q * 2 ^ n)) r in rw e (omega (arith, rw (d, ih) at step))

bit_and-nibble : (w k : ℕ) → bit_and w (16 * k + 15) ≡ 16 * bit_and (w / 16) k + w % 16
bit_and-nibble w k =
    let odd : (v p : ℕ) → bit_and v (2 * p + 1) ≡ 2 * bit_and (v / 2) p + v % 2 = λ v p.
      (let h : (2 * p + 1) / 2 ≡ p = omega arith in
        omega (arith, bit_and_digit v (2 * p + 1), ap (bit_and (v / 2)) h)) in
    let e : 2 * (2 * (2 * (2 * k + 1) + 1) + 1) + 1 ≡ 16 * k + 15 = omega arith in
    let d : w / 2 / 2 / 2 / 2 ≡ w / 16 = omega arith in
    omega (
      arith,
      ap (bit_and w) e,
      odd w (2 * (2 * (2 * k + 1) + 1) + 1),
      odd (w / 2) (2 * (2 * k + 1) + 1),
      odd (w / 2 / 2) (2 * k + 1),
      odd (w / 2 / 2 / 2) k,
      ap (λ v. bit_and v k) d,
    )

-- The masks of 1, 8, 12 and 16 ones keep the remainder.
pub bit_and-u8 : (w : ℕ) → bit_and w 0xff ≡ w % 2 ^ 8
bit_and-u8 w =
    omega (arith, bit_and-nibble w 15, bit_and-nibble (w / 16) 0, bit_and-zero (w / 16 / 16))

pub bit_and-u12 : (w : ℕ) → bit_and w 0xfff ≡ w % 2 ^ 12
bit_and-u12 w = omega (arith, bit_and-nibble w 0xff, bit_and-u8 (w / 16))

pub bit_and-one : (w : ℕ) → bit_and w 1 ≡ w % 2
bit_and-one w = omega (arith, bit_and_digit w 1, bit_and-zero (w / 2))

pub bit_and-u10 : (w : ℕ) → bit_and w 0x3ff ≡ w % 2 ^ 10
bit_and-u10 w = omega (
  arith,
  bit_and-nibble w 0x3f,
  bit_and-nibble (w / 16) 0x3,
  bit_and_digit (w / 16 / 16) 3,
  bit_and-one (w / 16 / 16 / 2),
)

pub bit_and-u16 : (w : ℕ) → bit_and w 0xffff ≡ w % 2 ^ 16
bit_and-u16 w =
    let d : w / 16 / 16 ≡ w / 256 = omega arith in
    omega (
      arith,
      bit_and-nibble w 0xfff,
      bit_and-nibble (w / 16) 0xff,
      ap (λ v. bit_and v 0xff) d,
      bit_and-u8 (w / 256),
    )

pub bit_or_comm : (n a b : ℕ) → a < 2 ^ n → b < 2 ^ n → bit_or a b ≡ bit_or b a
bit_or_comm n a b h k =
    word_ext n (bit_or a b) (bit_or b a) (bit_or-lt n a b h k) (bit_or-lt n b a k h)
      λ j l. omega (arith, test_bit-or a b j, test_bit-or b a j)
