-- ===== src/Tests/FatTests.antt =====
-- A disk whose table has the chain 2, 3.
use sea_star_os.Base.{
  ℕ, ◌+◌, ◌-◌, ◌*◌, ◌≤◌, ◌<◌, ◌≡◌, refl, inl, true, ◌||◌, Option, some, [], ◌∷◌, arith, ltb, ◌==◌,
  if◌then◌else◌,
}
use sea_star_os.CLib.Strings.{Memory, strlen}
use sea_star_os.CLib.Strings.Laws.{strlen_lem}
use sea_star_os.Tests.Stored.{is_string_sound}
use sea_star_os.Fs.Vfs.{File}
use sea_star_os.Fs.Fat12.{to_dos_file_name, toupper}
use sea_star_os.Fs.Fat12.Names.{to_dos_file_name_lem}
use sea_star_os.Fs.Fat12.Table.{packed, HoldsFat}
use sea_star_os.Fs.Fat12.Clusters.{read_to_end, read_to_end-IsChain}

abbrev fat : ℕ → ℕ
fat c = if c == 2 then 3 else if c == 3 then 0xfff else 0

-- behind the table, each byte of a sector is the sector's number
abbrev disk : ℕ → ℕ → ℕ
disk lba r = if ltb lba 10 then packed fat ((lba - 1) * 512 + r) else lba

-- the driver counts the reads
abbrev read : ℕ → ℕ → Option ((ℕ → ℕ) × ℕ)
read lba d = some (disk lba, d + 1)

abbrev file : File
file = record {
  name = [];
  flags = 0;
  file_length = 700;
  id = 0;
  eof = 0;
  position = 0;
  current_cluster = 2;
  device_id = b'a';
}

disk-HoldsFat : HoldsFat disk fat
disk-HoldsFat q r l b =
    let e : ltb (1 + q) 10 ≡ true = ground arith in
    let z : 1 + q - 1 ≡ q = omega arith in rw (e, z) refl

read_to_end-IsChain_example :
    (file' : File) × (d : ℕ) × (read_to_end read 3 file 0
      ≡ some ((λ r. disk 33 r) ∷ (λ r. disk 34 r) ∷ [], file', d))
    × (file'.eof ≡ 1)
read_to_end-IsChain_example =
    read_to_end-IsChain read (3 ∷ []) 3 disk fat file 2 0 (λ lba d. (d + 1, refl)) disk-HoldsFat
      (λ k. ground arith) (refl, omega arith, omega arith, inl (omega arith)) refl (omega arith)
      (omega arith) (omega arith)

-- "ab.txt" at 10
abbrev name : Memory
name a =
    if a == 10
    then b'a'
    else if a == 11
    then b'b'
    else if a == 12
    then b'.'
    else if a == 13 || a == 15
    then b't'
    else if a == 14
    then b'x'
    else 0

name-strlen : strlen 10 name 10 ≡ some 6
name-strlen =
    strlen_lem 10 name 10 (b'a' ∷ b'b' ∷ b'.' ∷ b't' ∷ b'x' ∷ b't' ∷ [])
      (is_string_sound name 10 (b'a' ∷ b'b' ∷ b'.' ∷ b't' ∷ b'x' ∷ b't' ∷ []) refl) (omega arith)

to_dos_file_name_lem_example :
    (dos : ℕ → ℕ) × (to_dos_file_name 10 name 10 (λ k. 0) 11 ≡ some dos)
    × ((k : ℕ) → k < 2 → dos k ≡ toupper (name (10 + k)))
    × ((k : ℕ) → 2 ≤ k → k < 8 → dos k ≡ b' ')
    × ((k : ℕ) → k < 3 → dos (8 + k) ≡ toupper (name (10 + (3 + k))))
    × ((k : ℕ) → 11 ≤ k → dos k ≡ 0)
to_dos_file_name_lem_example =
    to_dos_file_name_lem 10 name 10 6 2 (λ k. 0) name-strlen (omega arith) (omega arith)
      (omega arith) refl (λ j l. ground arith) (λ j l. ground arith)
