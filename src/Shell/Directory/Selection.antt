-- ===== src/Shell/Directory/Selection.antt =====
-- The path of a command, and the new current path.
use sea_star_os.Base.{
  ℕ, ◌+◌, ◌≤◌, ◌<◌, ◌≡◌, refl, ◌∙◌, ◌⊎◌, inl, inr, Bool, false, some, List, [], ◌∷◌, ◌++◌, arith,
  if◌then◌else◌, Bool-cases, length, length-append,
}
use sea_star_os.CLib.Strings.{Memory, strcat, IsString}
use sea_star_os.CLib.Strings.Copies.{within, strcpy_lem, strcat_lem, IsString-same}
use sea_star_os.Shell.Directory.{Places, is_whole_path, select_path, enter_directory}

abbrev pub AreApart : ℕ → ℕ → ℕ → ℕ → Type 0
AreApart a n b m = (a + n ≤ b) ⊎ (b + m ≤ a)

-- The arrays and the literal do not overlap; the two strings fit into their arrays, with a slash.
pub record AreLaidOut (at : Places) (s p : List ℕ) : Type 0 where
  pub path_fpath : AreApart at.path 33 at.fpath 500
  pub path_curr_path : AreApart at.path 33 at.curr_path 500
  pub fpath_curr_path : AreApart at.fpath 500 at.curr_path 500
  pub slash_path : AreApart at.slash 2 at.path 33
  pub slash_fpath : AreApart at.slash 2 at.fpath 500
  pub slash_curr_path : AreApart at.slash 2 at.curr_path 500
  pub path_fits : length p ≤ 32
  pub paths_fit : length s + length p < 498

-- the path that the shell means by `p` in the directory `s`
abbrev pub joined : Bool → List ℕ → List ℕ → List ℕ
joined whole s p = if whole then p else s ++ p

kept_string :
    (mem mem' : Memory) (a d n : ℕ) (s : List ℕ)
    → ((x : ℕ) → within d n x ≡ false → mem' x ≡ mem x)
    → AreApart a (length s + 1) d n
    → IsString mem a s
    → IsString mem' a s
kept_string mem mem' a d n s frame apart =
    IsString-same mem mem' a a s (λ i l. frame (a + i) (ground arith))

-- The path of the file is the path that is typed if its third character is `>`, and else the current
-- path with the path typed behind it, for any two strings that fit; nothing else changes.
pub select_path_lem :
    (fuel : ℕ) (mem : Memory) (at : Places) (s p : List ℕ)
    → AreLaidOut at s p
    → IsString mem at.curr_path s
    → IsString mem at.path p
    → 500 ≤ fuel
    → (mem' : Memory) × (select_path fuel mem at ≡ some mem')
      × IsString mem' at.fpath (joined (is_whole_path mem at.path) s p)
      × ((x : ℕ) → within at.fpath 500 x ≡ false → mem' x ≡ mem x)
unfolding select_path
select_path_lem fuel mem at s p laid hs hp l = elim (Bool-cases (is_whole_path mem at.path)) [
  | inl t ↦
      (let (mem', e, there, frame) =
          strcpy_lem fuel mem at.fpath at.path p hp
            (ground (arith, laid.path_fpath, laid.path_fits)) (omega (arith, laid.path_fits, l)) in
        rw t (mem', e, there, λ x o. frame x (ground (arith, laid.path_fits))))
  | inr f ↦
      (let (mem1, e1, there1, frame1) =
          strcpy_lem fuel mem at.fpath at.curr_path s hs
            (ground (arith, laid.fpath_curr_path, laid.paths_fit))
            (omega (arith, laid.paths_fit, l)) in
        let hp1 =
          kept_string mem mem1 at.path at.fpath (length s + 1) p frame1
            (ground (arith, laid.path_fpath, laid.path_fits, laid.paths_fit)) hp in
        let (mem2, e2, there2, frame2) =
          strcat_lem fuel mem1 at.fpath at.path s p there1 hp1
            (ground (arith, laid.path_fpath, laid.path_fits, laid.paths_fit))
            (omega (arith, laid.paths_fit, l)) (omega (arith, laid.paths_fit, l)) in
        rw (f, e1, e2)
          (
            mem2,
            refl,
            there2,
            λ x o.
                frame2 x (ground (arith, laid.paths_fit))
                ∙ frame1 x (ground (arith, laid.paths_fit)),
          ))
]

abbrev pub with_slash : List ℕ → List ℕ
with_slash s = s ++ b'/' ∷ []

-- the end of enter_directory, when the current path is `s` but for the slash
append_slash :
    (fuel : ℕ) (mem : Memory) (at : Places) (s : List ℕ)
    → AreApart at.slash 2 at.curr_path 500
    → IsString mem at.curr_path s
    → IsString mem at.slash (b'/' ∷ [])
    → length s < 498
    → 500 ≤ fuel
    → (mem' : Memory) × (strcat fuel mem at.curr_path at.slash ≡ some mem')
      × IsString mem' at.curr_path (with_slash s)
append_slash fuel mem at s apart hs hl fits l =
    let (mem', e, there, _) =
      strcat_lem fuel mem at.curr_path at.slash s (b'/' ∷ []) hs hl (ground arith)
        (omega (arith, fits, l)) (omega (arith, l)) in
    (mem', e, there)

-- The new current path is the path that was opened with a slash behind it.
pub enter_directory_lem :
    (fuel : ℕ) (mem : Memory) (at : Places) (s p : List ℕ)
    → AreLaidOut at s p
    → IsString mem at.curr_path s
    → IsString mem at.path p
    → IsString mem at.slash (b'/' ∷ [])
    → 500 ≤ fuel
    → (mem' : Memory) × (enter_directory fuel mem at ≡ some mem')
      × IsString mem' at.curr_path (with_slash (joined (is_whole_path mem at.path) s p))
unfolding enter_directory
enter_directory_lem fuel mem at s p laid hs hp hl l =
    elim (Bool-cases (is_whole_path mem at.path)) [
      | inl t ↦
          (let (mem1, e1, there, frame) =
              strcpy_lem fuel mem at.curr_path at.path p hp
                (ground (arith, laid.path_curr_path, laid.path_fits))
                (omega (arith, laid.path_fits, l)) in
            let hl1 =
              kept_string mem mem1 at.slash at.curr_path (length p + 1) (b'/' ∷ []) frame
                (ground (arith, laid.slash_curr_path, laid.path_fits)) hl in
            let (mem2, e2, there2) =
              append_slash fuel mem1 at p laid.slash_curr_path there hl1
                (omega (arith, laid.path_fits)) l in
            rw (t, e1, e2) (mem2, refl, there2))
      | inr f ↦
          (let (mem1, e1, there, frame) =
              strcat_lem fuel mem at.curr_path at.path s p hs hp
                (ground (arith, laid.path_curr_path, laid.path_fits, laid.paths_fit))
                (omega (arith, laid.paths_fit, l)) (omega (arith, laid.paths_fit, l)) in
            let hl1 =
              kept_string mem mem1 at.slash (at.curr_path + length s) (length p + 1) (b'/' ∷ [])
                frame (ground (arith, laid.slash_curr_path, laid.paths_fit)) hl in
            let (mem2, e2, there2) =
              append_slash fuel mem1 at (s ++ p) laid.slash_curr_path there hl1
                (omega (arith, laid.paths_fit, length-append s p)) l in
            rw (f, e1, e2) (mem2, refl, there2))
    ]
