-- ===== src/Fs/Ramdisk/Root.antt =====
-- fsysRdOpenRootDirectory against a search in the list of the archive's entries.
use sea_star_os.Base.{and_then}
use sea_star_os.Base.{
  ℕ, zero, suc, ◌+◌, ◌≤◌, ◌<◌, ◌≡◌, ◌∙◌, ◌⊎◌, refl, ◌≢◌, inl, inr, false, Option, some, List, [],
  ◌∷◌, arith, ◌==◌, if◌then◌else◌, Bool-cases, length, u32,
}
use sea_star_os.CLib.Strings.{Memory, Sign, minus, same, plus, IsString}
use sea_star_os.CLib.Strings.Laws.{compare_bytes, strcmp-compare_bytes}
use sea_star_os.CLib.Strings.Copies.{IsString-same}
use sea_star_os.Fs.Vfs.{File, fs_file, fs_dir, fs_invalid}
use sea_star_os.Fs.Ramdisk.{
  getsize, getsize_loop, next_header, file_at, match_header, root_from, read_string, copy_name,
  rd_open_root_directory, size_field, linkflag_field,
}
use sea_star_os.Fs.Ramdisk.Headers.{
  strip, has_parts, clear_slash, Kept, Kept-trans, clear_slash-Kept, clear_slash-IsString,
  clear_slash-outside, length-strip, check_subdir-has_parts, check_dir-clear_slash, read_string_lem,
}

-- `path` as the header has it, with a '/' at the end of a directory's; `kind` is the link flag
pub record Entry : Type 0 where
  pub path : List ℕ
  pub size : ℕ
  pub kind : ℕ

-- The headers of the entries stand one behind the other from `a` on, each with a name that is not
-- empty, fits the 100 bytes of its field and the fuel; an empty name ends the archive.
abbrev pub IsArchive : ℕ → Memory → ℕ → List Entry → Type 0
IsArchive fuel mem a [] = mem a ≡ 0
IsArchive fuel mem a (e ∷ es) =
    (IsString mem a e.path
      × (mem a ≢ 0)
      × (length e.path ≤ 100)
      × (length e.path < fuel)
      × (getsize mem (a + size_field) ≡ e.size)
      × (mem (a + linkflag_field) ≡ e.kind)
      × (a + 512 ≤ next_header a e.size))
    × IsArchive fuel mem (next_header a e.size) es

-- The string at `s`, with its 0, lies apart from the names in the headers.
abbrev pub IsApart : ℕ → ℕ → ℕ → List Entry → Type 0
IsApart s len a [] = Unit {0}
IsApart s len a (e ∷ es) = ((s + len < a) ⊎ (a + 100 ≤ s)) × IsApart s len (next_header a e.size) es

-- the file of an entry whose header stands at `a`
abbrev pub entry_file : List ℕ → ℕ → Entry → File → File
entry_file name a e blank = record blank {
  name = name;
  id = 0;
  current_cluster = u32 (a + 512);
  file_length = e.size;
  eof = 0;
  position = u32 (a + 512);
  flags = if e.kind == b'5' then fs_dir else fs_file;
}

-- The file of the first entry of the root directory with this name, where a directory's name is
-- taken without the '/' at its end.
abbrev pub find_entry : File → List ℕ → ℕ → List Entry → File
find_entry blank name a [] = record blank { flags = fs_invalid }
find_entry blank name a (e ∷ es) =
    let rest = find_entry blank name (next_header a e.size) es in
    if has_parts e.path
    then rest
    else elim (compare_bytes name (strip e.path)) [ same ↦ entry_file name a e blank | _ ↦ rest ]

getsize_loop-kept :
    (n : ℕ) (mem mem' : Memory) (field size count : ℕ)
    → ((x : ℕ) → field ≤ x → mem' x ≡ mem x)
    → getsize_loop n mem' field size count ≡ getsize_loop n mem field size count
unfolding getsize_loop
getsize_loop-kept zero mem mem' field size count h = refl
getsize_loop-kept (suc n) mem mem' field size count h =
    rw (h (field + n) (omega arith)) (getsize_loop-kept n mem mem' field _ _ h)

IsArchive-kept :
    (es : List Entry) (fuel : ℕ) (mem mem' : Memory) (a : ℕ)
    → ((x : ℕ) → a ≤ x → mem' x ≡ mem x)
    → IsArchive fuel mem a es
    → IsArchive fuel mem' a es
unfolding getsize
IsArchive-kept [] fuel mem mem' a h z = h a (omega arith) ∙ z
IsArchive-kept (e ∷ es) fuel mem mem' a h ((p, nz, short, fits, size, kind, next), rest) = (
  (
    IsString-same mem mem' a a e.path (λ i l. h (a + i) (omega arith)) p,
    rw (h a (omega arith)) nz,
    short,
    fits,
    getsize_loop-kept 11 mem mem' (a + size_field) 0 1 (λ x l. h x (omega arith)) ∙ size,
    h (a + linkflag_field) (omega arith) ∙ kind,
    next,
  ),
  IsArchive-kept es fuel mem mem' (next_header a e.size) (λ x l. h x (omega arith)) rest,
)

copy_name_lem : (name : List ℕ) → length name < 32 → copy_name name ≡ some name
unfolding copy_name
copy_name_lem name h = ground arith

-- what one header whose name is in the root directory gives
match_header_lem :
    (fuel : ℕ) (mem mem' : Memory) (name_at a : ℕ) (e : Entry) (name : List ℕ) (blank : File)
    (rest : Memory → ℕ → Option (File × Memory)) (later : File)
    → IsString (clear_slash mem a e.path) name_at name
    → IsString mem a e.path
    → length e.path < fuel
    → length name < fuel
    → length name < 32
    → clear_slash mem a e.path (a + linkflag_field) ≡ e.kind
    → rest (clear_slash mem a e.path) (next_header a e.size) ≡ some (later, mem')
    → (mem'' : Memory) × (match_header fuel mem name_at name_at a e.size blank rest
        ≡ some (
          elim (compare_bytes name (strip e.path)) [ same ↦ entry_file name a e blank | _ ↦ later ],
          mem'',
        ))
      × ((mem'' ≡ clear_slash mem a e.path) ⊎ (mem'' ≡ mem'))
unfolding match_header file_at
match_header_lem fuel mem mem' name_at a e name blank rest later n p l l' small kind r =
    let cleared = clear_slash mem a e.path in
    let path' = clear_slash-IsString mem a e.path p in
    let fits : length (strip e.path) < fuel = omega (arith, length-strip e.path) in
    let out = by_sign (compare_bytes name (strip e.path)) in
    (
      out.0,
      rw (check_dir-clear_slash fuel mem a e.path p l)
          (rw (strcmp-compare_bytes fuel cleared name_at a name (strip e.path) n path' fits) out.1),
      out.2,
    )
  where
    by_sign :
        (g : Sign)
        → (mem'' : Memory) × (and_then (some g) (elim [
          | same ↦
              and_then
                (and_then (read_string fuel (clear_slash mem a e.path) name_at) copy_name)
                λ name.
                  some (
                    file_at (clear_slash mem a e.path) a e.size name blank,
                    clear_slash mem a e.path,
                  )
          | _ ↦ rest (clear_slash mem a e.path) (next_header a e.size)
        ])
            ≡ some (elim g [ same ↦ entry_file name a e blank | _ ↦ later ], mem''))
          × ((mem'' ≡ clear_slash mem a e.path) ⊎ (mem'' ≡ mem'))
    by_sign minus = (mem', r, inr refl)
    by_sign same = (
      clear_slash mem a e.path,
      rw (read_string_lem fuel (clear_slash mem a e.path) name_at name n l')
          (rw (copy_name_lem name small) (rw kind refl)),
      inl refl,
    )
    by_sign plus = (mem', r, inr refl)

-- what the search from one header on gives
abbrev Found : ℕ → ℕ → File → ℕ → List ℕ → Memory → ℕ → List Entry → Type 0
Found entries fuel blank name_at name mem a es =
    (mem' : Memory) × (root_from entries fuel blank name_at mem a
      ≡ some (find_entry blank name a es, mem'))
    × ((x : ℕ) → Kept mem mem' x)

root_from-find_entry :
    (es : List Entry) (entries fuel : ℕ) (blank : File) (name_at : ℕ) (name : List ℕ) (mem : Memory)
    (a : ℕ)
    → IsArchive fuel mem a es
    → IsApart name_at (length name) a es
    → IsString mem name_at name
    → length name < fuel
    → length name < 32
    → length es < entries
    → Found entries fuel blank name_at name mem a es
unfolding root_from
root_from-find_entry es zero fuel blank name_at name mem a h o n l small b = elim b [ ]
root_from-find_entry [] (suc entries) fuel blank name_at name mem a h o n l small b =
    (mem, rw h refl, λ x. inl refl)
root_from-find_entry (e ∷ es) (suc entries) fuel blank name_at name mem a
      ((p, nz, short, fits, size, kind, next), rest) (o, os) n l small b =
    let nz' : (mem a == 0) ≡ false = ground arith in
    let cleared = clear_slash mem a e.path in
    let kept : (x : ℕ) → next_header a e.size ≤ x → cleared x ≡ mem x =
      λ x g. clear_slash-outside mem a e.path x (inr (omega arith)) in
    let n' : IsString cleared name_at name =
      IsString-same mem cleared name_at name_at name
        (λ i g. clear_slash-outside mem a e.path (name_at + i) (omega arith)) n in
    let ih =
      root_from-find_entry es entries fuel blank name_at name mem (next_header a e.size) rest os n l
        small (omega arith) in
    let ih' =
      root_from-find_entry es entries fuel blank name_at name cleared (next_header a e.size)
        (IsArchive-kept es fuel mem cleared (next_header a e.size) kept rest) os n' l small
        (omega arith) in
    let at_name =
      match_header_lem fuel mem ih'.0 name_at a e name blank (root_from entries fuel blank name_at)
        (find_entry blank name (next_header a e.size) es) n' p fits l small
        (clear_slash-outside mem a e.path (a + linkflag_field) (inr (omega arith)) ∙ kind) ih'.1 in
    elim (Bool-cases (has_parts e.path)) [
      | inl t ↦ (
        ih.0,
        rw (nz', check_subdir-has_parts fuel mem a e.path p fits) (rw (t, size) ih.1),
        ih.2,
      )
      | inr t ↦ (
        at_name.0,
        rw (nz', check_subdir-has_parts fuel mem a e.path p fits) (rw (t, size) at_name.1),
        λ x. elim at_name.2 [
          | inl c ↦ rw c (clear_slash-Kept mem a e.path x p)
          | inr c ↦
              rw c (Kept-trans mem cleared ih'.0 x (clear_slash-Kept mem a e.path x p) (ih'.2 x))
        ],
      )
    ]

-- fsysRdOpenRootDirectory returns the file of the first entry of the root directory that has the
-- name, directories included, whose names the archive ends with a '/', and an invalid file where none
-- has; the only bytes of memory that it changes are a '/' each, which it clears. Given are an archive whose
-- names fit their fields, a name that fits the 32 bytes of a file's name and lies apart from those
-- in the archive, and fuel above the lengths of the names and the number of entries.
pub rd_open_root_directory-find_entry :
    (es : List Entry) (entries fuel initrd : ℕ) (blank : File) (name_at : ℕ) (name : List ℕ)
    (mem : Memory)
    → IsArchive fuel mem initrd es
    → IsApart name_at (length name) initrd es
    → IsString mem name_at name
    → length name < fuel
    → length name < 32
    → length es < entries
    → (mem' : Memory) × (rd_open_root_directory entries fuel initrd blank name_at mem
        ≡ some (find_entry blank name initrd es, mem'))
      × ((x : ℕ) → (mem' x ≡ mem x) ⊎ ((mem x ≡ b'/') × (mem' x ≡ 0)))
unfolding rd_open_root_directory
rd_open_root_directory-find_entry es entries fuel initrd blank name_at name mem =
    root_from-find_entry es entries fuel blank name_at name mem initrd
