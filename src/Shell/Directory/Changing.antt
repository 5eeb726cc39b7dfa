-- ===== src/Shell/Directory/Changing.antt =====
-- cmd_change_dir, over the file system that opens the directory.
use sea_star_os.Base.{
  ℕ, ◌+◌, ◌≤◌, ◌<◌, ◌≡◌, refl, ap, ◌∙◌, inl, inr, true, ◌||◌, some, List, [], ◌∷◌, ◌++◌, arith,
  ◌==◌, if◌then◌else◌, Bool-cases, length,
}
use mathlib.Core.Path.{subst}
use sea_star_os.CLib.Strings.{Memory, IsString}
use sea_star_os.CLib.Strings.Copies.{within, IsString-same}
use sea_star_os.Fs.Vfs.{File, Devices, fs_dir, vol_open_file}
use sea_star_os.Shell.Directory.{
  Places, Shell, directory_not_found, is_whole_path, get_path, open_selected, follow_directory,
  cmd_change_dir,
}
use sea_star_os.Shell.Directory.Selection.{
  AreLaidOut, joined, with_slash, select_path_lem, enter_directory_lem,
}

-- The arrays of the paths and the literal are the same in both memories.
abbrev pub Keeps : Places → Memory → Memory → Type 0
Keeps at m m' =
    (x : ℕ)
    → (within at.path 33 x || (within at.curr_path 500 x || within at.slash 2 x)) ≡ true
    → m' x ≡ m x

-- What a command has when the current path is `cur`, and `p` has been typed.
pub record HasPaths (mem : Memory) (at : Places) (cur p : List ℕ) : Type 0 where
  pub current : IsString mem at.curr_path cur
  pub typed : IsString mem at.path p
  pub slash : IsString mem at.slash (b'/' ∷ [])

HasPaths-kept :
    (mem mem' : Memory) (at : Places) (cur p : List ℕ)
    → length p ≤ 32
    → length cur < 498
    → Keeps at mem mem'
    → HasPaths mem at cur p
    → HasPaths mem' at cur p
HasPaths-kept mem mem' at cur p lp lc keeps h = record {
  current =
      IsString-same mem mem' at.curr_path at.curr_path cur
        (λ i l. keeps (at.curr_path + i) (ground arith)) h.current;
  typed =
      IsString-same mem mem' at.path at.path p (λ i l. keeps (at.path + i) (ground arith)) h.typed;
  slash =
      IsString-same mem mem' at.slash at.slash (b'/' ∷ [])
        (λ i l. keeps (at.slash + i) (ground arith)) h.slash;
}

module _ {D : Type 0} (table : Devices (Memory × D)) (blank : File) (at : Places) where
  -- The file systems open the string `path` at fpath as `file`, and keep the arrays.
  abbrev pub Opens : D → List ℕ → File → Type 0
  Opens disk path file =
      (mem : Memory)
      → IsString mem at.fpath path
      → (mem' : Memory) × (disk' : D) × (vol_open_file table blank mem at.fpath (mem at.curr_path)
            (mem, disk)
          ≡ some (file, (mem', disk')))
        × Keeps at mem mem'

  open_selected_lem :
      (fuel : ℕ) (s : Shell D) (cur p : List ℕ) (file : File)
      → AreLaidOut at cur p
      → HasPaths s.mem at cur p
      → 500 ≤ fuel
      → Opens s.disk (joined (is_whole_path s.mem at.path) cur p) file
      → (t : Shell D) × (open_selected table blank at fuel s ≡ some (file, t))
        × HasPaths t.mem at cur p
        × (is_whole_path t.mem at.path ≡ is_whole_path s.mem at.path)
        × (t.said ≡ s.said)
  unfolding open_selected
  open_selected_lem fuel s cur p file laid h l opens =
      let (mem1, e1, there, frame) = select_path_lem fuel s.mem at cur p laid h.current h.typed l in
      let (mem2, disk2, e2, keeps) = opens mem1 there in
      let keeps' : Keeps at s.mem mem2 = λ x o.
        keeps x o
        ∙ frame x (ground (arith, laid.path_fpath, laid.fpath_curr_path, laid.slash_fpath)) in
      (
        record s { mem = mem2; disk = disk2 },
        rw (e1, e2) refl,
        HasPaths-kept s.mem mem2 at cur p laid.path_fits (omega (arith, laid.paths_fit)) keeps' h,
        ap (λ v. v == b'>') (keeps' (at.path + 2) (ground arith)),
        refl,
      )

  -- cd: where the file systems open the selected path as a directory, the current path becomes that
  -- path and a slash; where they open it as anything else, the current path stays and the message
  -- that there is no such directory is added. The two paths fit into their arrays, which do not
  -- overlap, and the file systems keep them.
  pub cmd_change_dir_lem :
      (fuel : ℕ) (s s1 : Shell D) (cur p : List ℕ) (file : File)
      → get_path table blank at fuel s ≡ some s1
      → AreLaidOut at cur p
      → HasPaths s1.mem at cur p
      → 500 ≤ fuel
      → Opens s1.disk (joined (is_whole_path s1.mem at.path) cur p) file
      → (t : Shell D) × (cmd_change_dir table blank at fuel s ≡ some t)
        × IsString t.mem at.curr_path (
            if file.flags == fs_dir
            then with_slash (joined (is_whole_path s1.mem at.path) cur p)
            else cur)
        × (t.said ≡ (if file.flags == fs_dir then s1.said else s1.said ++ directory_not_found ∷ []))
  unfolding cmd_change_dir follow_directory
  cmd_change_dir_lem fuel s s1 cur p file got laid h l opens =
      let (t, e, has, same, quiet) = open_selected_lem fuel s1 cur p file laid h l opens in
      let (mem, entered, path) =
        enter_directory_lem fuel t.mem at cur p laid has.current has.typed has.slash l in
      let moved = subst (λ w. IsString mem at.curr_path (with_slash (joined w cur p))) same path in
      elim (Bool-cases (file.flags == fs_dir)) [
        | inl d ↦ rw (got, e, d, entered) (record t { mem = mem }, refl, moved, quiet)
        | inr d ↦
            rw (got, e, d)
              (
                record t { said = t.said ++ directory_not_found ∷ [] },
                refl,
                has.current,
                ap (λ m. m ++ directory_not_found ∷ []) quiet,
              )
      ]
