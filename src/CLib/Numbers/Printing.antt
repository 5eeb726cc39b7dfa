-- ===== src/CLib/Numbers/Printing.antt =====
-- Numbers that the screen prints in decimal are read back by atoi.
use sea_star_os.Base.{
  ℕ, zero, suc, ◌+◌, ◌-◌, ◌*◌, ◌/◌, ◌%◌, ◌^◌, ◌≤◌, ◌<◌, ◌≡◌, refl, sym, ap, ◌∙◌, false, none, some,
  List, [], ◌∷◌, arith, ◌==◌, ==_iff, length, get_or, all_below, all_below_sound,
}
use mathlib.Core.Path.{subst}
use native.Mathlib.Nat.{pow-suc}
use sea_star_os.CLib.Strings.{Memory, IsString}
use sea_star_os.Kernel.Display.{bchars, itoa_loop, itoa}
use sea_star_os.CLib.Numbers.{atoi}
use sea_star_os.CLib.Numbers.Digits.{AreDigits, decimal}
use sea_star_os.CLib.Numbers.Decimal.{atoi-decimal}

bchars_digit : (d : ℕ) → d < 10 → get_or bchars d 0 ≡ b'0' + d
unfolding all_below
bchars_digit d h = (==_iff _ _).0 (all_below_sound 10 (λ d. get_or bchars d 0 == b'0' + d) d refl h)

itoa_loop-zero : (fuel : ℕ) (acc : List ℕ) → itoa_loop (suc fuel) 0 10 acc ≡ some acc
unfolding itoa_loop
itoa_loop-zero fuel acc = refl

itoa_loop-step :
    (fuel i : ℕ) (acc : List ℕ)
    → 0 < i
    → itoa_loop (suc fuel) i 10 acc ≡ itoa_loop fuel (i / 10) 10 (get_or bchars (i % 10) 0 ∷ acc)
unfolding itoa_loop
itoa_loop-step fuel i acc h =
    let more : (i == 0) ≡ false = ground arith in rw (itoa_loop, more) refl

itoa_positive : (i : ℕ) → 0 < i → itoa i 10 ≡ itoa_loop 33 i 10 []
unfolding itoa
itoa_positive i h = let more : (i == 0) ≡ false = ground arith in rw more refl

-- the loop from `i` on, with `k` bits to go, in front of the digits found so far
itoa_loop-decimal :
    (k fuel i : ℕ) (acc : List ℕ)
    → i < 2 ^ k
    → k < fuel
    → AreDigits acc
    → (cs : List ℕ) × (itoa_loop fuel i 10 acc ≡ some cs)
      × AreDigits cs
      × (decimal 0 cs ≡ decimal i acc)
      × (length acc ≤ length cs)
      × (length cs ≤ k + length acc)
      × (0 < i → length acc < length cs)
itoa_loop-decimal k zero i acc h f a = absurd (omega arith)
itoa_loop-decimal k (suc fuel) zero acc h f a =
    (acc, itoa_loop-zero fuel acc, a, refl, omega arith, omega arith, λ p. absurd (omega arith))
itoa_loop-decimal zero (suc fuel) (suc n) acc h f a = absurd (omega arith)
itoa_loop-decimal (suc k) (suc fuel) (suc n) acc h f a =
    let d = get_or bchars (suc n % 10) 0 in
    let digit : d ≡ b'0' + suc n % 10 = bchars_digit (suc n % 10) (omega arith) in
    let (cs, e, are, v, lo, hi, p) =
      itoa_loop-decimal k fuel (suc n / 10) (d ∷ acc) (omega (arith, pow-suc 2 k)) (omega arith)
        (omega (arith, digit), omega (arith, digit), a) in
    let value : suc n / 10 * 10 + (d - b'0') ≡ suc n = omega (arith, digit) in
    (
      cs,
      itoa_loop-step fuel (suc n) acc (omega arith) ∙ e,
      are,
      v ∙ ap (λ i. decimal i acc) value,
      omega (arith, lo),
      omega (arith, hi),
      λ q. omega (arith, lo),
    )

-- what is printed for `i` in base 10
pub itoa-decimal :
    (i : ℕ)
    → i < 2 ^ 32
    → (c : ℕ) × (cs : List ℕ) × (itoa i 10 ≡ some (c ∷ cs))
      × AreDigits (c ∷ cs)
      × (decimal 0 (c ∷ cs) ≡ i)
      × (length cs < 32)
unfolding itoa
itoa-decimal zero h = (b'0', [], refl, (omega arith, omega arith, tt), refl, omega arith)
itoa-decimal (suc n) h =
    let (cs, e, are, v, lo, hi, p) =
      itoa_loop-decimal 32 33 (suc n) [] (omega arith) (omega arith) tt in
    first cs e are v hi (p (omega arith))
  where
    first :
        (cs : List ℕ)
        → itoa_loop 33 (suc n) 10 [] ≡ some cs
        → AreDigits cs
        → decimal 0 cs ≡ suc n
        → length cs ≤ 32
        → 0 < length cs
        → (c : ℕ) × (ds : List ℕ) × (itoa (suc n) 10 ≡ some (c ∷ ds))
          × AreDigits (c ∷ ds)
          × (decimal 0 (c ∷ ds) ≡ suc n)
          × (length ds < 32)
    first [] e a v l p = absurd (omega arith)
    first (c ∷ ds) e a v l p = (c, ds, itoa_positive (suc n) (omega arith) ∙ e, a, v, omega arith)

-- The text that the screen gets for a number below 2^31 in base 10, put into memory as a string, is
-- read back by atoi as that number, given 34 rounds.
pub atoi-itoa :
    (i fuel : ℕ) (mem : Memory) (a : ℕ) (text : List ℕ)
    → i < 2 ^ 31
    → itoa i 10 ≡ some text
    → IsString mem a text
    → 34 ≤ fuel
    → atoi fuel mem a ≡ some i
atoi-itoa i fuel mem a text h e s f =
    let (c, cs, e', are, v, l) = itoa-decimal i (omega arith) in
    let same : text ≡ c ∷ cs =
      ap (λ o. elim o as (λ _. List ℕ) [ none ↦ [] | some t ↦ t ]) (sym e ∙ e') in
    let s' : IsString mem a (c ∷ cs) = subst (IsString mem a) same s in
    atoi-decimal false c cs fuel mem a s' are (omega arith) ∙ ap some (omega (arith, v))
