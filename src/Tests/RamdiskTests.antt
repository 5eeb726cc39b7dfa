-- ===== src/Tests/RamdiskTests.antt =====
-- An archive at 4096 of a file "a" of 7 bytes and a directory "b/".
use sea_star_os.Base.{
  ℕ, ◌+◌, ◌-◌, ◌≡◌, refl, ◌⊎◌, inl, inr, ◌&&◌, ◌||◌, some, List, [], ◌∷◌, arith, ltb, leb, ◌==◌,
  if◌then◌else◌, update,
}
use sea_star_os.CLib.Strings.{Memory, string_end, memcpy}
use sea_star_os.CLib.Strings.Copies.{within}
use sea_star_os.Fs.Vfs.{File}
use sea_star_os.Fs.Ramdisk.{getsize, getsize_loop, next_header, rd_open_root_directory, rd_read}
use sea_star_os.Fs.Ramdisk.Root.{
  Entry, IsArchive, IsApart, entry_file, rd_open_root_directory-find_entry,
}
use sea_star_os.Fs.Ramdisk.Reading.{rd_read_lem}

-- the name "b" at 100
abbrev tar : Memory
tar a =
    if a == 4096
    then b'a'
    else if a == 5120 || a == 100
    then b'b'
    else if a == 5121
    then b'/'
    else if a == 5276
    then b'5'
    else if a == 4230
    then b'7'
    else if (leb 4220 a && ltb a 4230) || (leb 5244 a && ltb a 5255)
    then b'0'
    else if leb 4608 a && ltb a 4615
    then b'x'
    else 0

abbrev no_file : File
no_file = record {
  name = [];
  flags = 0;
  file_length = 0;
  id = 0;
  eof = 0;
  position = 0;
  current_cluster = 0;
  device_id = 0;
}

abbrev entries : List Entry
entries =
    record { path = b'a' ∷ []; size = 7; kind = 0 }
    ∷ record { path = b'b' ∷ b'/' ∷ []; size = 0; kind = b'5' }
    ∷ []

tar-IsArchive : IsArchive 9 tar 4096 entries
unfolding getsize getsize_loop next_header
tar-IsArchive = (
  ((refl, omega arith, refl), omega arith, omega arith, omega arith, refl, refl, omega arith),
  (
    (
      (refl, omega arith, (refl, omega arith, refl)),
      omega arith,
      omega arith,
      omega arith,
      refl,
      refl,
      omega arith,
    ),
    refl,
  ),
)

tar-IsApart : IsApart 100 1 4096 entries
unfolding next_header
tar-IsApart = (inl (omega arith), (inl (omega arith), tt))

rd_open_root_directory-find_entry_example :
    (mem : Memory) × (rd_open_root_directory 3 9 4096 no_file 100 tar
      ≡ some (
        entry_file
            (b'b' ∷ [])
            5120
            (record { path = b'b' ∷ b'/' ∷ []; size = 0; kind = b'5' })
            no_file,
        mem,
      ))
    × ((x : ℕ) → (mem x ≡ tar x) ⊎ ((tar x ≡ b'/') × (mem x ≡ 0)))
unfolding next_header
rd_open_root_directory-find_entry_example =
    rd_open_root_directory-find_entry entries 3 9 4096 no_file 100 (b'b' ∷ []) tar tar-IsArchive
      tar-IsApart (refl, omega arith, refl) (omega arith) (omega arith) (omega arith)

abbrev opened : File
opened = record no_file { file_length = 7; position = 4608; current_cluster = 4608 }

buffer_end : string_end 9 (memcpy 3 tar 8000 4608) 8000 ≡ some 8003
unfolding string_end memcpy update
buffer_end = refl

rd_read_lem_example :
    (mem : Memory) × (rd_read 9 tar opened 8000 3
      ≡ some (record opened { current_cluster = 4611 }, mem))
    × ((x : ℕ) → mem x ≡ (if within 8000 3 x then tar (4608 + (x - 8000)) else tar x))
rd_read_lem_example =
    rd_read_lem 8 tar opened 8000 3 7 8003 refl (omega arith) (omega arith) (inr (omega arith))
      (omega arith) refl buffer_end
