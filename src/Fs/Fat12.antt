-- ===== src/Fs/Fat12.antt =====
-- Fs/fat12.c: names, directories, cluster chains and mounting on a disk of 512-byte sectors.
--
-- A sector is read by the parameter `read_sector`, the driver's floppydisk_read_sector with what the
-- disk transfers to its buffer: it gives the bytes of the sector, or `none` where the driver returns
-- NULL. A local array is a function from its indices. A call that runs out of fuel is `none`.
pub mod Names
pub mod Table
pub mod Clusters
use sea_star_os.Base.{
  ℕ, zero, suc, ◌+◌, ◌-◌, ◌*◌, ◌/◌, ◌%◌, ◌^◌, ◌≤◌, ◌<◌, min, max, bit_and, bit_or, ◌≡◌, refl, sym,
  ap, ◌∙◌, ◌≢◌, ◌↔◌, ◌⊎◌, inl, inr, Bool, true, false, not, ◌&&◌, ◌||◌, Option, none, some, List,
  [], ◌∷◌, ◌++◌, map, arith, ltb, leb, ◌==◌, if◌then◌else◌, ==_iff, Bool-cases, Option-cases, u8,
  u16, u32, sub32, not32, ◌<<<◌, ◌>>>◌, length, get_elem?, get_or, set, length-append, length-set,
  get_elem?-set_self, get_elem?-set_ne, get_elem?-past, and_then, update, update_lem, test_bit,
  test_bit-le, test_bit-or, test_bit-and, test_bit-zero, test_bit-pow, test_bit-complement,
  word_ext, bit_and-zero, bit_and-pow, bit_and-lt, bit_or-lt, pow-lt, test_bit_of_clear,
  test_bit_of_set, bit_or-disjoint, test_bit-high, test_bit-low, bit_and-u8, bit_and-u12,
  bit_and-one, bit_and-u16, test_bit-shifted, test_bit_of_lt, ℤ, pos, negsuc, sub_ℕ, all_below,
  all_below_sound,
}
use sea_star_os.CLib.Strings.{Memory, Sign, minus, same, plus, strcmp, strlen, strchr}
use sea_star_os.Fs.Vfs.{
  File, FileSystem, Devices, fs_file, fs_dir, fs_invalid, vol_register_file_system,
}
use sea_star_os.Fs.Ramdisk.{copy_part, read_string}

abbrev pub sector_size : ℕ
sector_size = 512

-- the macro of ctype.h
unfoldable pub toupper : ℕ → ℕ
toupper c = c - 0x20 * (if leb b'a' c && leb c b'z' then 1 else 0)

-- the loop over the name in front of the dot, from `i` on
pub dos_base : ℕ → Memory → ℕ → ℕ → ℕ → (ℕ → ℕ) → ℕ × (ℕ → ℕ)
dos_base zero mem filename n i fname = (i, fname)
dos_base (suc left) mem filename n i fname =
    let rest =
      dos_base left mem filename n (i + 1) (update fname i (toupper (mem (filename + i)))) in
    if ltb i n && not (mem (filename + i) == b'.' || i == 8) then rest else (i, fname)

-- the three rounds over the extension, which do not stop at the end of the name
pub dos_extension : ℕ → Memory → ℕ → ℕ → ℕ → (ℕ → ℕ) → ℕ → ℕ
dos_extension zero mem filename i k fname = fname
dos_extension (suc left) mem filename i k fname =
    let c = mem (filename + (i + 1)) in
    dos_extension left mem filename (i + 1) (k + 1)
      (if c == 0 then fname else update fname (8 + k) c)

pub upper_extension : ℕ → ℕ → (ℕ → ℕ) → ℕ → ℕ
upper_extension zero i fname = fname
upper_extension (suc left) i fname =
    upper_extension left (i + 1) (update fname (8 + i) (toupper (fname (8 + i))))

-- `fname` is an array, and not NULL.
pub to_dos_file_name : ℕ → Memory → ℕ → (ℕ → ℕ) → ℕ → Option (ℕ → ℕ)
to_dos_file_name fuel mem filename fname fname_length =
    let converted : Option (ℕ → ℕ) = and_then (strlen fuel mem filename) λ n.
      let blank : ℕ → ℕ = λ k. if ltb k fname_length then b' ' else fname k in
      let (i, base) = dos_base fname_length mem filename n 0 blank in
      let dotted = dos_extension 3 mem filename i 0 base in
      some (upper_extension 3 0 (if mem (filename + i) == b'.' then dotted else base)) in
    if ltb 11 fname_length || filename == 0 then some fname else converted

-- the words of the array at an index
abbrev pub u16_at : (ℕ → ℕ) → ℕ → ℕ
u16_at b i = b i + b (i + 1) * 2 ^ 8

abbrev pub u32_at : (ℕ → ℕ) → ℕ → ℕ
u32_at b i = u16_at b i + u16_at b (i + 2) * 2 ^ 16

-- the arrays DosFileName and name, one behind the other, both with a 0 at their end
abbrev pub both_names : (ℕ → ℕ) → (ℕ → ℕ) → ℕ → ℕ → ℕ
both_names dos buf entry a =
    if ltb a 11
    then dos a
    else if a == 11
    then 0
    else if ltb a 23
    then buf (entry + (a - 12))
    else 0

-- the entries of one sector, from `entry` on: the place of the one that has the name
unfoldable pub search_entries : ℕ → ℕ → (ℕ → ℕ) → (ℕ → ℕ) → Option (Option ℕ)
search_entries zero entry dos buf = some none
search_entries (suc left) entry dos buf =
    let rest = search_entries left (entry + 32) dos buf in
    elim (strcmp 12 (both_names dos buf entry) 0 12) [
      | none ↦ none
      | some same ↦ some (some entry)
      | some _ ↦ rest
    ]

-- the file of the entry
unfoldable pub entry_file : (ℕ → ℕ) → ℕ → List ℕ → File → File
entry_file buf entry name blank = record blank {
  name = name;
  id = 0;
  current_cluster = u16_at buf (entry + 26);
  file_length = u32_at buf (entry + 28);
  eof = 0;
  flags = if buf (entry + 11) == 0x10 then fs_dir else fs_file;
}

pub record MountInfo : Type 0 where
  pub num_sectors : ℕ
  pub fat_offset : ℕ
  pub num_root_entries : ℕ
  pub root_offset : ℕ
  pub root_size : ℕ
  pub fat_size : ℕ
  pub fat_entry_size : ℕ

-- the offset of the cluster's entry in the table, `currentCluster*1.5`
abbrev pub fat_entry_offset : ℕ → ℕ
fat_entry_offset cluster = u32 (cluster + cluster / 2)

-- the entry from the two sectors of the table
pub next_cluster : ℕ → (ℕ → ℕ) → (ℕ → ℕ) → ℕ
next_cluster cluster sector0 sector1 =
    let fat = λ (k : ℕ). if ltb k sector_size then sector0 k else sector1 (k - sector_size) in
    let next = u16_at fat (fat_entry_offset cluster % sector_size) in
    if bit_and cluster 1 == 0 then bit_and next 0x0FFF else next >>> 4

-- the tests on the next cluster
pub advance : File → ℕ → File
advance file next =
    if leb 0xff8 next
    then record file { eof = 1 }
    else if next == 0
    then record file { eof = 1 }
    else record file { current_cluster = next }

module _ {D : Type 0} (read_sector : ℕ → D → Option ((ℕ → ℕ) × D)) where
  -- the loop over the sectors of a directory
  unfoldable pub search_sectors : ℕ → ℕ → (ℕ → ℕ) → D → Option (Option ((ℕ → ℕ) × ℕ) × D)
  search_sectors zero sector dos d = some (none, d)
  search_sectors (suc left) sector dos d = and_then (read_sector sector d) λ (buf, d').
      let rest = search_sectors left (sector + 1) dos d' in
      elim (search_entries 16 0 dos buf) [
        | none ↦ none
        | some none ↦ rest
        | some (some entry) ↦ some (some (buf, entry), d')
      ]

  unfoldable pub fat_directory : ℕ → Memory → MountInfo → File → ℕ → D → Option (File × D)
  fat_directory fuel mem mount blank directory_name d =
      and_then (to_dos_file_name fuel mem directory_name (λ k. 0) 11) λ dos.
        and_then (read_string fuel mem directory_name) λ name.
          and_then (search_sectors 14 mount.root_offset dos d) λ (found, d'). elim found [
            | none ↦ some (record blank { flags = fs_invalid }, d')
            | some (buf, entry) ↦ some (entry_file buf entry name blank, d')
          ]

  -- The file, the 512 bytes of the buffer and the disk; the length is not looked at.
  pub fat_read : File → D → Option (File × (ℕ → ℕ) × D)
  fat_read file d =
      let sector = 1 + fat_entry_offset file.current_cluster / sector_size in
      and_then (read_sector (u32 (32 + sub32 file.current_cluster 1)) d) λ (buffer, d1).
        and_then (read_sector sector d1) λ (sector0, d2).
          and_then (read_sector (sector + 1) d2) λ (sector1, d3).
            some (advance file (next_cluster file.current_cluster sector0 sector1), buffer, d3)

  -- the loop of fsysFatOpenSubDir, which reads on from the local `file`
  unfoldable pub search_clusters : ℕ → (ℕ → ℕ) → File → D → Option (Option ((ℕ → ℕ) × ℕ) × File × D)
  search_clusters zero dos file d = some (none, file, d)
  search_clusters (suc left) dos file d = and_then (fat_read file d) λ (file', buf, d').
      let rest = search_clusters left dos file' d' in
      elim (search_entries 16 0 dos buf) [
        | none ↦ none
        | some none ↦ rest
        | some (some entry) ↦ some (some (buf, entry), file', d')
      ]

  -- `file` is the local variable, which has not been set; `directory`, the file given, is not used.
  unfoldable pub fat_open_sub_dir : ℕ → Memory → File → File → ℕ → D → Option (File × D)
  fat_open_sub_dir fuel mem file directory filename d =
      and_then (to_dos_file_name fuel mem filename (λ k. 0) 11) λ dos.
        and_then (read_string fuel mem filename) λ name.
          and_then (search_clusters 14 dos file d) λ (found, file', d'). elim found [
            | none ↦ some (record file' { flags = fs_invalid }, d')
            | some (buf, entry) ↦ some (entry_file buf entry name file', d')
          ]

  -- the `while(p)` loop at `p ≢ 0`; the local array stands at `pathname`
  unfoldable pub fat_open_parts :
      ℕ → ℕ → MountInfo → ℕ → File → File → Bool → Memory → ℕ → D → Option (File × Memory × D)
  fat_open_parts zero fuel mount pathname blank directory root mem p d = none
  fat_open_parts (suc parts) fuel mount pathname blank directory root mem p d =
      let mem' = copy_part 16 mem p pathname in
      let looked_up : Option (File × D) =
        if root
        then fat_directory fuel mem' mount blank pathname d
        else fat_open_sub_dir fuel mem' blank directory pathname d in
      and_then looked_up λ (file, d').
        let invalid = record blank { flags = fs_invalid } in
        let next : Option (File × Memory × D) = and_then (strchr fuel mem' (p + 1) b'/') (elim [
          | zero ↦ some (if file.flags == fs_dir then file else invalid, mem', d')
          | suc q ↦ fat_open_parts parts fuel mount pathname blank file false mem' (suc q + 1) d'
        ]) in
        if file.flags == fs_invalid
        then some (invalid, mem', d')
        else if file.flags == fs_file
        then some (file, mem', d')
        else next

  unfoldable pub fat_open :
      ℕ → ℕ → MountInfo → ℕ → File → ℕ → Memory → D → Option (File × Memory × D)
  fat_open parts fuel mount pathname blank file_name mem d =
      and_then (strchr fuel mem file_name b'/') (elim [
        | zero ↦ and_then (fat_directory fuel mem mount blank file_name d) λ (file, d').
            let found = file.flags == fs_file || file.flags == fs_dir in
            some (if found then file else record blank { flags = fs_invalid }, mem, d')
        | suc p ↦ fat_open_parts parts fuel mount pathname blank blank true mem (suc p + 1) d
      ])

  -- the boot sector's fields, behind three bytes and eight of a name
  unfoldable pub fat_mount :
      {S : Type 0} → Devices S → FileSystem S → ℕ → D → Option (MountInfo × Devices S × D)
  fat_mount table fs device d = and_then (read_sector 0 d) λ (boot, d').
      if u16_at boot 11 == 0
      then none
      else and_then (vol_register_file_system table (some fs) device) λ mounted. some (
        record {
          num_sectors = u16_at boot 19;
          fat_offset = 1;
          num_root_entries = u16_at boot 17;
          root_offset = boot 16 * u16_at boot 22 + 1;
          root_size = u16_at boot 17 * 32 / u16_at boot 11;
          fat_size = u16_at boot 22;
          fat_entry_size = 8;
        },
        mounted,
        d',
      )

unfoldable pub fat_close : File → File
fat_close file = record file { flags = fs_invalid }
