-- ===== src/Tests/StringsTests.antt =====
-- The string functions on two strings of two bytes.
use sea_star_os.Base.{
  ℕ, ◌≡◌, refl, ◌↔◌, inl, false, some, List, [], ◌∷◌, arith, ◌==◌, if◌then◌else◌,
}
use sea_star_os.CLib.Strings.{Memory, same, strcmp, strcat, IsString}
use sea_star_os.CLib.Strings.Laws.{strcmp_same_iff}
use sea_star_os.CLib.Strings.Copies.{within, strcat_lem}

-- "ab" at 10 and "cb" at 20
abbrev text : Memory
text a =
    if a == 10
    then b'a'
    else if a == 11
    then b'b'
    else if a == 20
    then b'c'
    else if a == 21
    then b'b'
    else 0

abbrev ab : List ℕ
ab = b'a' ∷ b'b' ∷ []

abbrev cb : List ℕ
cb = b'c' ∷ b'b' ∷ []

text-ab : IsString text 10 ab
text-ab = (refl, omega arith, (refl, omega arith, refl))

text-cb : IsString text 20 cb
text-cb = (refl, omega arith, (refl, omega arith, refl))

strcmp_same_iff_example : (strcmp 5 text 10 20 ≡ some same) ↔ (ab ≡ cb)
strcmp_same_iff_example = strcmp_same_iff 5 text 10 20 ab cb text-ab text-cb (omega arith)

strcat_lem_example :
    (mem : Memory) × (strcat 5 text 10 20 ≡ some mem)
    × IsString mem 10 (b'a' ∷ b'b' ∷ b'c' ∷ b'b' ∷ [])
    × ((x : ℕ) → within 12 3 x ≡ false → mem x ≡ text x)
strcat_lem_example =
    strcat_lem 5 text 10 20 ab cb text-ab text-cb (inl (omega arith)) (omega arith) (omega arith)
