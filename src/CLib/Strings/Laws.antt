-- ===== src/CLib/Strings/Laws.antt =====
-- strlen, strcmp and strchr against the lists of bytes that the strings hold.
use sea_star_os.Base.{
  ℕ, zero, suc, ◌+◌, ◌<◌, ◌≡◌, refl, ap, ◌∙◌, ◌≢◌, ◌↔◌, Option, none, some, List, [], ◌∷◌, arith,
  ltb, ◌==◌, if◌then◌else◌, length,
}
use sea_star_os.CLib.Strings.{
  Memory, Sign, minus, same, plus, strcmp, string_end, strlen, strchr, IsString,
}

pub string_end_lem :
    (fuel : ℕ) (mem : Memory) (a : ℕ) (s : List ℕ)
    → IsString mem a s
    → length s < fuel
    → string_end fuel mem a ≡ some (a + length s)
unfolding string_end
string_end_lem zero mem a s h l = elim l [ ]
string_end_lem (suc fuel) mem a [] h l = rw h (ground arith)
string_end_lem (suc fuel) mem a (c ∷ cs) h l =
    ground (arith, string_end_lem fuel mem (a + 1) cs h.2 (omega arith))

-- strlen returns the number of bytes of the string, given one round more than that.
pub strlen_lem :
    (fuel : ℕ) (mem : Memory) (a : ℕ) (s : List ℕ)
    → IsString mem a s
    → length s < fuel
    → strlen fuel mem a ≡ some (length s)
unfolding strlen
strlen_lem fuel mem a s h l = ground (arith, string_end_lem fuel mem a s h l)

-- lexicographic comparison, a proper prefix first
abbrev pub compare_bytes : List ℕ → List ℕ → Sign
compare_bytes [] [] = same
compare_bytes [] (d ∷ ds) = minus
compare_bytes (c ∷ cs) [] = plus
compare_bytes (c ∷ cs) (d ∷ ds) =
    if c == d then compare_bytes cs ds else if ltb c d then minus else plus

pub strcmp-compare_bytes :
    (fuel : ℕ) (mem : Memory) (a b : ℕ) (s t : List ℕ)
    → IsString mem a s
    → IsString mem b t
    → length t < fuel
    → strcmp fuel mem a b ≡ some (compare_bytes s t)
unfolding strcmp
strcmp-compare_bytes zero mem a b s t p q l = elim l [ ]
strcmp-compare_bytes (suc fuel) mem a b [] [] p q l = rw (p, q)
strcmp-compare_bytes (suc fuel) mem a b [] (d ∷ ds) p q l = rw p (ground arith)
strcmp-compare_bytes (suc fuel) mem a b (c ∷ cs) [] p q l = rw q (ground arith)
strcmp-compare_bytes (suc fuel) mem a b (c ∷ cs) (d ∷ ds) p q l =
    rw (p.0, q.0)
      (ground (arith, strcmp-compare_bytes fuel mem (a + 1) (b + 1) cs ds p.2 q.2 (omega arith)))

pub compare_bytes-same_iff : (s t : List ℕ) → (compare_bytes s t ≡ same) ↔ (s ≡ t)
compare_bytes-same_iff [] [] = (λ e. refl, λ e. refl)
compare_bytes-same_iff [] (d ∷ ds) = (λ e. cc, λ e. cc)
compare_bytes-same_iff (c ∷ cs) [] = (λ e. cc, λ e. cc)
compare_bytes-same_iff (c ∷ cs) (d ∷ ds) = (
  λ e. ground (arith, (compare_bytes-same_iff cs ds).0),
  λ e. ground (arith, (compare_bytes-same_iff cs ds).1),
)

-- strcmp returns 0 exactly where the two strings hold the same bytes, given more rounds than the
-- second string has bytes.
pub strcmp_same_iff :
    (fuel : ℕ) (mem : Memory) (a b : ℕ) (s t : List ℕ)
    → IsString mem a s
    → IsString mem b t
    → length t < fuel
    → (strcmp fuel mem a b ≡ some same) ↔ (s ≡ t)
strcmp_same_iff fuel mem a b s t p q l = (
  λ e. (compare_bytes-same_iff s t).0 (cc (strcmp-compare_bytes fuel mem a b s t p q l)),
  λ e. strcmp-compare_bytes fuel mem a b s t p q l ∙ ap some ((compare_bytes-same_iff s t).1 e),
)

-- the place of the first `character`, counted from 0
abbrev pub index_of : ℕ → List ℕ → Option ℕ
index_of c [] = none
index_of c (d ∷ ds) =
    if d == c then some 0 else elim (index_of c ds) [ none ↦ none | some i ↦ some (i + 1) ]

-- strchr of a byte other than 0 returns the address of the first such byte, and NULL where the string
-- has none, given more rounds than bytes.
pub strchr_lem :
    (fuel : ℕ) (mem : Memory) (a c : ℕ) (s : List ℕ)
    → IsString mem a s
    → length s < fuel
    → c ≢ 0
    → strchr fuel mem a c ≡ some (elim (index_of c s) [ none ↦ 0 | some i ↦ a + i ])
unfolding strchr
strchr_lem zero mem a c s p l nz = elim l [ ]
strchr_lem (suc fuel) mem a c [] p l nz = rw p (ground arith)
strchr_lem (suc fuel) mem a c (d ∷ ds) p l nz =
    ground (arith, strchr_lem fuel mem (a + 1) c ds p.2 (omega arith) nz)
