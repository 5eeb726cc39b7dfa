-- ===== src/CLib/Strings/Copies.antt =====
-- strcpy, strcat, memcpy and memset: what they write, and what they leave.
use sea_star_os.Base.{
  ℕ, zero, suc, ◌+◌, ◌-◌, ◌≤◌, ◌<◌, ◌≡◌, ap, ◌∙◌, ◌⊎◌, Bool, false, ◌&&◌, some, List, [], ◌∷◌, ◌++◌,
  arith, ltb, leb, if◌then◌else◌, length, update, update_lem,
}
use sea_star_os.CLib.Strings.{Memory, strcpy, memcpy, memset, strcat, IsString}
use sea_star_os.CLib.Strings.Laws.{string_end_lem}

-- the `n` cells from `a` on
abbrev pub within : ℕ → ℕ → ℕ → Bool
within a n x = leb a x && ltb x (a + n)

pub memset_lem :
    (n : ℕ) (mem : Memory) (dest val x : ℕ)
    → memset n mem dest val x ≡ (if within dest n x then val else mem x)
unfolding memset
memset_lem zero mem dest val x = ground arith
memset_lem (suc n) mem dest val x =
    ground
      (arith, memset_lem n (update mem (dest + n) val) dest val x, update_lem mem (dest + n) val x)

-- memcpy forwards over two ranges of which the source does not begin below the destination's end
-- after its start: each byte of the destination is the source's byte from before the call, and no
-- other byte changes.
pub memcpy_lem :
    (n : ℕ) (mem : Memory) (dest src x : ℕ)
    → ((dest ≤ src) ⊎ (src + n ≤ dest))
    → memcpy n mem dest src x ≡ (if within dest n x then mem (src + (x - dest)) else mem x)
unfolding memcpy
memcpy_lem zero mem dest src x h = ground arith
memcpy_lem (suc n) mem dest src x h = ground (
  arith,
  memcpy_lem n (update mem dest (mem src)) (dest + 1) (src + 1) x (omega arith),
  update_lem mem dest (mem src) x,
  update_lem mem dest (mem src) (src + 1 + (x - (dest + 1))),
)

-- A string is read from the bytes at its place alone.
pub IsString-same :
    (mem mem' : Memory) (a b : ℕ) (s : List ℕ)
    → ((i : ℕ) → i ≤ length s → mem' (b + i) ≡ mem (a + i))
    → IsString mem a s
    → IsString mem' b s
IsString-same mem mem' a b [] e h =
    ap mem' (omega arith) ∙ e 0 (omega arith) ∙ ap mem (omega arith) ∙ h
IsString-same mem mem' a b (c ∷ cs) e (h0, h1, h2) = (
  ap mem' (omega arith) ∙ e 0 (omega arith) ∙ ap mem (omega arith) ∙ h0,
  h1,
  IsString-same mem mem' (a + 1) (b + 1) cs
      (λ i l. ap mem' (omega arith) ∙ e (i + 1) (omega arith) ∙ ap mem (omega arith)) h2,
)

IsString-append :
    (mem mem' : Memory) (a : ℕ) (s t : List ℕ)
    → ((i : ℕ) → i < length s → mem' (a + i) ≡ mem (a + i))
    → IsString mem a s
    → IsString mem' (a + length s) t
    → IsString mem' a (s ++ t)
IsString-append mem mem' a [] t e h k = let z : a + 0 ≡ a = omega arith in rw z at k
IsString-append mem mem' a (c ∷ cs) t e (h0, h1, h2) k = (
  ap mem' (omega arith) ∙ e 0 (omega arith) ∙ ap mem (omega arith) ∙ h0,
  h1,
  IsString-append mem mem' (a + 1) cs t
      (λ i l. ap mem' (omega arith) ∙ e (i + 1) (omega arith) ∙ ap mem (omega arith)) h2
      (let z : a + suc (length cs) ≡ a + 1 + length cs = omega arith in rw z at k),
)

-- the string at `b` is out of the way of writes from `d` on
abbrev pub IsClear : ℕ → ℕ → List ℕ → Type 0
IsClear d b s = (d < b) ⊎ (b + length s < d)

IsString-update :
    (mem : Memory) (d v b : ℕ) (s : List ℕ)
    → IsClear d b s
    → IsString mem b s
    → IsString (update mem d v) b s
IsString-update mem d v b s c =
    IsString-same mem (update mem d v) b b s (λ i l. ground (arith, update_lem mem d v (b + i)))

strcpy-eq-memcpy :
    (fuel : ℕ) (mem : Memory) (d b : ℕ) (s : List ℕ)
    → IsString mem b s
    → IsClear d b s
    → length s < fuel
    → strcpy fuel mem d b ≡ some (memcpy (suc (length s)) mem d b)
unfolding strcpy memcpy
strcpy-eq-memcpy zero mem d b s h c l = elim l [ ]
strcpy-eq-memcpy (suc fuel) mem d b [] h c l = rw h
strcpy-eq-memcpy (suc fuel) mem d b (x ∷ xs) h c l =
    let later = IsString-update mem d (mem b) (b + 1) xs (ground arith) h.2 in
    ground (
      arith,
      strcpy-eq-memcpy fuel (update mem d (mem b)) (d + 1) (b + 1) xs later (ground arith)
          (omega arith),
    )

-- strcpy of a string that is out of the way leaves the same string at the destination, changes no
-- byte outside the destination's string and its terminator, and needs one round more than bytes.
pub strcpy_lem :
    (fuel : ℕ) (mem : Memory) (d b : ℕ) (s : List ℕ)
    → IsString mem b s
    → IsClear d b s
    → length s < fuel
    → (mem' : Memory) × (strcpy fuel mem d b ≡ some mem')
      × IsString mem' d s
      × ((x : ℕ) → within d (length s + 1) x ≡ false → mem' x ≡ mem x)
strcpy_lem fuel mem d b s h c l = (
  memcpy (suc (length s)) mem d b,
  strcpy-eq-memcpy fuel mem d b s h c l,
  IsString-same mem (memcpy (suc (length s)) mem d b) b d s
      (λ i le. memcpy_lem (suc (length s)) mem d b (d + i) (omega arith) ∙ copied i le) h,
  λ x o. ground (arith, memcpy_lem (suc (length s)) mem d b x (omega arith)),
)
  where
    copied :
        (i : ℕ)
        → i ≤ length s
        → (if within d (suc (length s)) (d + i) then mem (b + (d + i - d)) else mem (d + i))
          ≡ mem (b + i)
    copied i le = let e : d + i - d ≡ i = omega arith in rw e (ground arith)

-- strcat appends: where the second string is out of the way of the bytes that are written behind
-- the first, the first string's place holds both, one after the other, given more rounds than
-- either string has bytes; no byte outside the second string and its terminator changes.
pub strcat_lem :
    (fuel : ℕ) (mem : Memory) (d b : ℕ) (s t : List ℕ)
    → IsString mem d s
    → IsString mem b t
    → IsClear (d + length s) b t
    → length s < fuel
    → length t < fuel
    → (mem' : Memory) × (strcat fuel mem d b ≡ some mem')
      × IsString mem' d (s ++ t)
      × ((x : ℕ) → within (d + length s) (length t + 1) x ≡ false → mem' x ≡ mem x)
unfolding strcat
strcat_lem fuel mem d b s t h k c l l' =
    let (mem', e, there, rest) = strcpy_lem fuel mem (d + length s) b t k c l' in
    (
      mem',
      ground (arith, string_end_lem fuel mem d s h l, e),
      IsString-append mem mem' d s t (λ i lt. rest (d + i) (ground arith)) h there,
      rest,
    )
