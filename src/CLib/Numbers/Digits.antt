-- ===== src/CLib/Numbers/Digits.antt =====
-- Digits that strtol scans.
use sea_star_os.Base.{
  ℕ, zero, suc, ◌+◌, ◌-◌, ◌*◌, ◌/◌, ◌%◌, ◌^◌, ◌≤◌, ◌<◌, ◌≡◌, refl, sym, ap, ◌∙◌, ◌≢◌, ◌⊎◌, inl, inr,
  true, false, ◌&&◌, ◌||◌, none, some, List, [], ◌∷◌, arith, ltb, ◌==◌, if◌then◌else◌, Bool-cases,
  u32, length,
}
use sea_star_os.CLib.Strings.{Memory, IsString}
use sea_star_os.CLib.Numbers.{Any, overflow, nothing, digits, digit_value, scan_digit, scan_digits}

-- the characters are decimal digits
abbrev pub AreDigits : List ℕ → Type 0
AreDigits [] = Unit {0}
AreDigits (c ∷ cs) = (b'0' ≤ c) × (c ≤ b'9') × AreDigits cs

-- the number that the digits write behind the number `v`
abbrev pub decimal : ℕ → List ℕ → ℕ
decimal v [] = v
decimal v (c ∷ cs) = decimal (v * 10 + (c - b'0')) cs

pub decimal-le : (cs : List ℕ) (v : ℕ) → v ≤ decimal v cs
decimal-le [] v = omega arith
decimal-le (c ∷ cs) v = omega (arith, decimal-le cs (v * 10 + (c - b'0')))

-- The loop is at the number `v`: it has it, or it has seen that it is above the limit.
abbrev pub Holds : ℕ → ℕ → Any → ℕ → Type 0
Holds limit acc overflow v = limit < v
Holds limit acc nothing v = (acc ≡ v) × (v ≤ limit)
Holds limit acc digits v = (acc ≡ v) × (v ≤ limit)

abbrev pub IsLimit : ℕ → Type 0
IsLimit limit = (limit ≡ 2 ^ 31) ⊎ (limit ≡ 2 ^ 31 - 1)

accept :
    (limit v d : ℕ)
    → IsLimit limit
    → v ≤ limit
    → d < 10
    → let over = ltb (limit / 10) v || (v == limit / 10 && ltb (limit % 10) d) in
      (over ≡ true → limit < v * 10 + d)
      × (over ≡ false → (u32 (u32 (v * 10) + d) ≡ v * 10 + d) × (v * 10 + d ≤ limit))
accept limit v d (inl l) h b = (λ e. ground arith, λ e. ground arith)
accept limit v d (inr l) h b = (λ e. ground arith, λ e. ground arith)

-- One digit more.
abbrev IsNext : ℕ → ℕ → ℕ × Any → Type 0
IsNext limit v r = Holds limit r.0 r.1 v × (r.1 ≢ nothing)

IsNext-digit :
    (limit v d : ℕ)
    → IsLimit limit
    → v ≤ limit
    → d < 10
    → IsNext limit (v * 10 + d) (
        if ltb (limit / 10) v || (v == limit / 10 && ltb (limit % 10) d)
        then (v, overflow)
        else (u32 (u32 (v * 10) + d), digits))
IsNext-digit limit v d l h b =
    let over = ltb (limit / 10) v || (v == limit / 10 && ltb (limit % 10) d) in
    elim (Bool-cases over) [
      | inl e ↦ rw e ((accept limit v d l h b).0 e, λ q. cc)
      | inr e ↦ rw e ((accept limit v d l h b).1 e, λ q. cc)
    ]

scan_digit-IsNext :
    (limit acc : ℕ) (any : Any) (v d : ℕ)
    → IsLimit limit
    → Holds limit acc any v
    → d < 10
    → IsNext limit (v * 10 + d) (scan_digit 10 (limit / 10) (limit % 10) acc any d)
unfolding scan_digit
scan_digit-IsNext limit acc overflow v d l h b = (omega arith, λ q. cc)
scan_digit-IsNext limit acc nothing v d l h b = rw h.0 (IsNext-digit limit v d l h.1 b)
scan_digit-IsNext limit acc digits v d l h b = rw h.0 (IsNext-digit limit v d l h.1 b)

pub digit_value_lem : (c : ℕ) → b'0' ≤ c → c ≤ b'9' → digit_value c ≡ some (c - b'0')
unfolding digit_value
digit_value_lem c l h = ground arith

digit_value_end : digit_value 0 ≡ none
unfolding digit_value
digit_value_end = refl

scan_step :
    (fuel : ℕ) (mem : Memory) (base cutoff cutlim acc : ℕ) (any : Any) (c d s : ℕ)
    → digit_value c ≡ some d
    → scan_digits (suc fuel) mem none base cutoff cutlim acc any c s
      ≡ scan_digits fuel mem none base cutoff cutlim
          (scan_digit base cutoff cutlim acc any d).0
          (scan_digit base cutoff cutlim acc any d).1
          (mem s)
          (s + 1)
unfolding scan_digits
scan_step fuel mem base cutoff cutlim acc any c d s e = rw (e, scan_digits) refl

-- The loop over the digits at `a`.
pub scan_digits-decimal :
    (cs : List ℕ) (fuel : ℕ) (mem : Memory) (limit acc : ℕ) (any : Any) (v a : ℕ)
    → IsLimit limit
    → Holds limit acc any v
    → IsString mem a cs
    → AreDigits cs
    → length cs < fuel
    → (acc' : ℕ) × (any' : Any) × (scan_digits fuel mem none 10
          (limit / 10)
          (limit % 10)
          acc
          any
          (mem a)
          (a + 1)
        ≡ some (record { acc = acc'; any = any'; s = a + 1 + length cs }))
      × Holds limit acc' any' (decimal v cs)
      × (((0 < length cs) ⊎ (any ≢ nothing)) → any' ≢ nothing)
unfolding scan_digits
scan_digits-decimal cs zero mem limit acc any v a l h t d b = elim b [ ]
scan_digits-decimal [] (suc fuel) mem limit acc any v a l h t d b = (
  acc,
  any,
  (let e : a + 1 + 0 ≡ a + 1 = omega arith in rw (t, scan_digits, digit_value_end, e) refl),
  h,
  elim [ inl q ↦ absurd (omega arith) | inr q ↦ q ],
)
scan_digits-decimal (x ∷ xs) (suc fuel) mem limit acc any v a l h t d b =
    let n = scan_digit-IsNext limit acc any v (x - b'0') l h (omega arith) in
    let r = scan_digit 10 (limit / 10) (limit % 10) acc any (x - b'0') in
    let (acc', any', e, k, m) =
      scan_digits-decimal xs fuel mem limit r.0 r.1 (v * 10 + (x - b'0')) (a + 1) l n.0 t.2 d.2
        (omega arith) in
    let z : a + 1 + suc (length xs) ≡ a + 1 + 1 + length xs = omega arith in
    let c : digit_value (mem a) ≡ some (x - b'0') = rw t.0 (digit_value_lem x d.0 d.1) in
    let step =
      scan_step fuel mem 10 (limit / 10) (limit % 10) acc any (mem a) (x - b'0') (a + 1) c in
    (
      acc',
      any',
      step ∙ e ∙ ap (λ n. some (record { acc = acc'; any = any'; s = n })) (sym z),
      k,
      λ q. m (inr n.1),
    )
