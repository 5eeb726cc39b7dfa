-- ===== src/Kernel/Pmm/Search.antt =====
-- mmap_find_first_free finds the first free block of what it scans.
use native.Mathlib.Decide.{dec_lt}
use sea_star_os.Base.{
  ℕ, zero, suc, ◌+◌, ◌-◌, ◌*◌, ◌/◌, ◌%◌, ◌^◌, ◌≤◌, ◌<◌, bit_and, ◌≡◌, ◌∙◌, inl, inr, Option, none,
  some, map, arith, ◌==◌, ==_iff, Bool-cases, Option-cases, test_bit, test_bit-zero,
  test_bit-complement, test_bit_of_clear, test_bit_of_set,
}
use sea_star_os.Kernel.Pmm.{Pmm, first_free_in, first_free_from, mmap_find_first_free, block_used}

-- `r` is the first block of `lo` to `hi` that is free, or `none` where all are used.
abbrev pub IsFirstFree : (ℕ → ℕ) → ℕ → ℕ → Option ℕ → Type 0
IsFirstFree used lo hi none = (f : ℕ) → lo ≤ f → f < hi → used f ≡ 1
IsFirstFree used lo hi (some k) =
    (lo ≤ k) × (k < hi) × (used k ≡ 0) × ((f : ℕ) → lo ≤ f → f < k → used f ≡ 1)

skip_used :
    (used : ℕ → ℕ) (lo mid hi : ℕ) (r : Option ℕ)
    → ((f : ℕ) → lo ≤ f → f < mid → used f ≡ 1)
    → lo ≤ mid
    → IsFirstFree used mid hi r
    → IsFirstFree used lo hi r
skip_used used lo mid hi none h le rest =
    λ f p q. elim (dec_lt f mid) [ yes l ↦ h f p l | no g ↦ rest f (omega arith) q ]
skip_used used lo mid hi (some k) h le rest = (
  omega arith,
  rest.1,
  rest.2,
  λ f p q. elim (dec_lt f mid) [ yes l ↦ h f p l | no g ↦ rest.3 f (omega arith) q ],
)

widen :
    (used used' : ℕ → ℕ) (d : ℕ) (k hi hi' : ℕ)
    → ((f : ℕ) → f < hi → used' (d + f) ≡ used f)
    → d + hi ≤ hi'
    → IsFirstFree used 0 hi (some k)
    → IsFirstFree used' d hi' (some (d + k))
widen used used' d k hi hi' e le (p0, p1, p2, p3) = (
  omega arith,
  omega arith,
  e k p1 ∙ p2,
  λ f p q.
      let s : d + (f - d) ≡ f = omega arith in
      rw (← s) (e (f - d) (omega arith) ∙ p3 (f - d) (omega arith) (omega arith)),
)

first_free_in-IsFirstFree :
    (left w j hi : ℕ) → j + left ≡ hi → IsFirstFree (test_bit w) j hi (first_free_in left w j)
unfolding first_free_in
first_free_in-IsFirstFree zero w j hi e = λ f p q. absurd (omega arith)
first_free_in-IsFirstFree (suc left) w j hi e = elim (Bool-cases (bit_and w (2 ^ j) == 0)) [
  | inl t ↦ rw t (omega arith, omega arith, test_bit_of_clear w j t, λ f p q. absurd (omega arith))
  | inr t ↦ rw t (
      skip_used (test_bit w) j (j + 1) hi _
        (λ f p q. let s : f ≡ j = omega arith in rw s (test_bit_of_set w j t)) (omega arith)
        (first_free_in-IsFirstFree left w (j + 1) hi (omega arith)))
]

abbrev bit_of : (ℕ → ℕ) → ℕ → ℕ
bit_of map f = test_bit (map (f / 32)) (f % 32)

bit_of_word : (map : ℕ → ℕ) (i f : ℕ) → f < 32 → bit_of map (32 * i + f) ≡ test_bit (map i) f
bit_of_word map i f h =
    let q : (32 * i + f) / 32 ≡ i = omega arith in
    let r : (32 * i + f) % 32 ≡ f = omega arith in rw (q, r)

full_word :
    (map : ℕ → ℕ) (i : ℕ)
    → map i ≡ 0xffffffff
    → (f : ℕ) → 32 * i ≤ f
    → f < 32 * i + 32
    → bit_of map f ≡ 1
full_word map i e f p q =
    let d : f / 32 ≡ i = omega arith in
    let c = test_bit-complement 32 0 (f % 32) (omega arith) (omega arith) in
    rw (d, e) (omega (arith, c, test_bit-zero (f % 32)))

used_word :
    (map : ℕ → ℕ) (i : ℕ)
    → first_free_in 32 (map i) 0 ≡ none
    → (f : ℕ) → 32 * i ≤ f
    → f < 32 * i + 32
    → bit_of map f ≡ 1
used_word map i e f p q =
    let h = first_free_in-IsFirstFree 32 (map i) 0 32 (omega arith) in
    let h' : IsFirstFree (test_bit (map i)) 0 32 none = rw e at h in
    let d : f / 32 ≡ i = omega arith in rw d (h' (f % 32) (omega arith) (omega arith))

found_in_word :
    (map : ℕ → ℕ) (i hi j : ℕ)
    → 32 * i + 32 ≤ hi
    → first_free_in 32 (map i) 0 ≡ some j
    → IsFirstFree (bit_of map) (32 * i) hi (some (i * 4 * 8 + j))
found_in_word map i hi j le e =
    let h = first_free_in-IsFirstFree 32 (map i) 0 32 (omega arith) in
    let n : i * 4 * 8 + j ≡ 32 * i + j = omega arith in
    rw n (widen (test_bit (map i)) (bit_of map) (32 * i) j 32 hi (bit_of_word map i) le (rw e at h))

first_free_from-IsFirstFree :
    (left : ℕ) (map : ℕ → ℕ) (i hi : ℕ)
    → 32 * (i + left) ≡ hi
    → IsFirstFree (bit_of map) (32 * i) hi (first_free_from left map i)
unfolding first_free_from
first_free_from-IsFirstFree zero map i hi e = λ f p q. absurd (omega arith)
first_free_from-IsFirstFree (suc left) map i hi e =
    let rest = first_free_from-IsFirstFree left map (i + 1) hi (omega arith) in
    let skip = λ (used : (f : ℕ) → 32 * i ≤ f → f < 32 * (i + 1) → bit_of map f ≡ 1).
      skip_used (bit_of map) (32 * i) (32 * (i + 1)) hi _ used (omega arith) rest in
    elim (Bool-cases (map i == 0xffffffff)) [
      | inl t ↦ rw t (skip (λ f p q. full_word map i ((==_iff _ _).0 t) f p (omega arith)))
      | inr t ↦ elim (Option-cases (first_free_in 32 (map i) 0)) [
        | inl e0 ↦ rw (t, e0) (skip (λ f p q. used_word map i e0 f p (omega arith)))
        | inr (j, e1) ↦ rw (t, e1) (found_in_word map i hi j (omega arith) e1)
      ]
    ]

-- The search returns the lowest free block of the 32 * max_blocks bits that it scans, and -1 only
-- where every one of them is used.
pub mmap_find_first_free-IsFirstFree :
    (s : Pmm) → IsFirstFree (block_used s) 0 (32 * s.max_blocks) (mmap_find_first_free s)
unfolding block_used mmap_find_first_free
mmap_find_first_free-IsFirstFree s =
    first_free_from-IsFirstFree s.max_blocks s.memory_map 0 (32 * s.max_blocks) (omega arith)
