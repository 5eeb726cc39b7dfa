-- ===== src/Fs/Ramdisk/Headers.antt =====
-- The names in the headers: check_dir and check_subdir.
use sea_star_os.Base.{
  ℕ, zero, suc, ◌+◌, ◌<◌, ◌≡◌, refl, inl, inr, Bool, true, false, some, List, [], ◌∷◌, ◌∙◌, ◌≤◌,
  ◌⊎◌, refl, update, update_lem, arith, ◌==◌, if◌then◌else◌, Bool-cases, length,
}
use sea_star_os.CLib.Strings.{Memory, IsString}
use sea_star_os.Fs.Ramdisk.{check_dir, check_subdir, read_string}

-- a name less one '/' at its end
abbrev pub strip : List ℕ → List ℕ
strip [] = []
strip (c ∷ []) = if c == b'/' then [] else c ∷ []
strip (c ∷ d ∷ ds) = c ∷ strip (d ∷ ds)

-- a name with something behind a '/'
abbrev pub has_parts : List ℕ → Bool
has_parts [] = false
has_parts (c ∷ []) = false
has_parts (c ∷ d ∷ ds) = if c == b'/' then true else has_parts (d ∷ ds)

-- check_subdir tells whether a '/' has something behind it.
pub check_subdir-has_parts :
    (fuel : ℕ) (mem : Memory) (a : ℕ) (s : List ℕ)
    → IsString mem a s
    → length s < fuel
    → check_subdir fuel mem a ≡ some (has_parts s)
unfolding check_subdir
check_subdir-has_parts zero mem a s h l = elim l [ ]
check_subdir-has_parts (suc fuel) mem a [] h l = rw h
check_subdir-has_parts (suc fuel) mem a (c ∷ []) (h0, h1, h2) l =
    rw (h0, h2) (ground (arith, check_subdir-has_parts fuel mem (a + 1) [] h2 (omega arith)))
check_subdir-has_parts (suc fuel) mem a (c ∷ d ∷ ds) (h0, h1, h2) l =
    rw (h0, h2.0)
      (ground (arith, h2.1, check_subdir-has_parts fuel mem (a + 1) (d ∷ ds) h2 (omega arith)))

-- the memory with the '/' at the end of the name at `a` cleared
pub clear_slash : Memory → ℕ → List ℕ → Memory
clear_slash mem a [] = mem
clear_slash mem a (c ∷ []) = if c == b'/' then update mem a 0 else mem
clear_slash mem a (c ∷ d ∷ ds) = clear_slash mem (a + 1) (d ∷ ds)

pub check_dir-clear_slash :
    (fuel : ℕ) (mem : Memory) (a : ℕ) (s : List ℕ)
    → IsString mem a s
    → length s < fuel
    → check_dir fuel mem a ≡ some (clear_slash mem a s)
unfolding check_dir clear_slash
check_dir-clear_slash zero mem a s h l = elim l [ ]
check_dir-clear_slash (suc fuel) mem a [] h l = rw h
check_dir-clear_slash (suc zero) mem a (c ∷ []) h l = absurd (omega arith)
check_dir-clear_slash (suc (suc fuel)) mem a (c ∷ []) (h0, h1, h2) l =
    let e : update mem a 0 (a + 1) ≡ 0 = update_lem mem a 0 (a + 1) ∙ ground arith in
    elim (Bool-cases (c == b'/')) [
      | inl t ↦ let cz : (c == 0) ≡ false = ground arith in rw (h0, h2, t, cz) (rw e refl)
      | inr t ↦ let cz : (c == 0) ≡ false = ground arith in rw (h0, h2, t, cz) (rw h2 refl)
    ]
check_dir-clear_slash (suc fuel) mem a (c ∷ d ∷ ds) (h0, h1, h2) l =
    let ih = check_dir-clear_slash fuel mem (a + 1) (d ∷ ds) h2 (omega arith) in
    let cz : (c == 0) ≡ false = ground arith in
    let dz : (d == 0) ≡ false = ground (arith, h2.1) in
    elim (Bool-cases (c == b'/')) [
      | inl t ↦ rw (h0, h2.0, t, cz, dz) ih
      | inr t ↦ rw (h0, h2.0, t, cz) ih
    ]

pub clear_slash-outside :
    (mem : Memory) (a : ℕ) (s : List ℕ) (x : ℕ)
    → ((x < a) ⊎ (a + length s ≤ x))
    → clear_slash mem a s x ≡ mem x
unfolding clear_slash
clear_slash-outside mem a [] x o = refl
clear_slash-outside mem a (c ∷ []) x o = ground (arith, update_lem mem a 0 x)
clear_slash-outside mem a (c ∷ d ∷ ds) x o =
    clear_slash-outside mem (a + 1) (d ∷ ds) x (omega arith)

-- a byte is kept, or was a '/' and is cleared
abbrev pub Kept : Memory → Memory → ℕ → Type 0
Kept mem mem' x = (mem' x ≡ mem x) ⊎ ((mem x ≡ b'/') × (mem' x ≡ 0))

pub Kept-trans :
    (mem mem' mem'' : Memory) (x : ℕ) → Kept mem mem' x → Kept mem' mem'' x → Kept mem mem'' x
Kept-trans mem mem' mem'' x h k = ground arith

pub clear_slash-Kept :
    (mem : Memory) (a : ℕ) (s : List ℕ) (x : ℕ)
    → IsString mem a s
    → Kept mem (clear_slash mem a s) x
unfolding clear_slash
clear_slash-Kept mem a [] x h = inl refl
clear_slash-Kept mem a (c ∷ []) x (h0, h1, h2) = ground (arith, update_lem mem a 0 x)
clear_slash-Kept mem a (c ∷ d ∷ ds) x (h0, h1, h2) = clear_slash-Kept mem (a + 1) (d ∷ ds) x h2

pub clear_slash-IsString :
    (mem : Memory) (a : ℕ) (s : List ℕ)
    → IsString mem a s
    → IsString (clear_slash mem a s) a (strip s)
unfolding clear_slash
clear_slash-IsString mem a [] h = h
clear_slash-IsString mem a (c ∷ []) (h0, h1, h2) = elim (Bool-cases (c == b'/')) [
  | inl t ↦ rw t (update_lem mem a 0 a ∙ ground arith)
  | inr t ↦ rw t (h0, h1, h2)
]
clear_slash-IsString mem a (c ∷ d ∷ ds) (h0, h1, h2) = (
  clear_slash-outside mem (a + 1) (d ∷ ds) a (inl (omega arith)) ∙ h0,
  h1,
  clear_slash-IsString mem (a + 1) (d ∷ ds) h2,
)

pub length-strip : (s : List ℕ) → length (strip s) ≤ length s
length-strip [] = omega arith
length-strip (c ∷ []) = ground arith
length-strip (c ∷ d ∷ ds) = let ih = length-strip (d ∷ ds) in omega arith

pub read_string_lem :
    (fuel : ℕ) (mem : Memory) (a : ℕ) (s : List ℕ)
    → IsString mem a s
    → length s < fuel
    → read_string fuel mem a ≡ some s
unfolding read_string
read_string_lem zero mem a s h l = elim l [ ]
read_string_lem (suc fuel) mem a [] h l = rw h (ground arith)
read_string_lem (suc fuel) mem a (c ∷ cs) (h0, h1, h2) l =
    rw (h0, read_string_lem fuel mem (a + 1) cs h2 (omega arith)) (ground arith)
