-- ===== src/Fs/Ramdisk.antt =====
-- Fs/ramdisk.c: the read-only file system over a tar archive in memory.
--
-- Memory is flat bytes, an address is a uint32_t. `none` is fuel that runs out: `fuel` bounds the
-- loops over strings, `entries` the loop over the archive's headers and the path's parts. The names
-- that C copies into `file.name`, of 32 bytes, are lists of bytes, and `none` where they do not fit;
-- the bound of the local array of a path's last part, 100 bytes, is not modelled.
pub mod Sizes
pub mod Reading
pub mod Headers
pub mod Root
use sea_star_os.Base.{and_then}
use sea_star_os.Base.{
  ℕ, zero, suc, ◌+◌, ◌-◌, ◌*◌, ◌/◌, ◌%◌, ◌^◌, ◌≤◌, ◌<◌, min, max, bit_and, bit_or, ◌≡◌, refl, sym,
  ap, ◌∙◌, ◌≢◌, ◌↔◌, ◌⊎◌, inl, inr, Bool, true, false, not, ◌&&◌, ◌||◌, Option, none, some, List,
  [], ◌∷◌, ◌++◌, map, arith, ltb, leb, ◌==◌, if◌then◌else◌, ==_iff, Bool-cases, Option-cases, u8,
  u16, u32, sub32, not32, ◌<<<◌, ◌>>>◌, length, get_elem?, get_or, set, length-append, length-set,
  get_elem?-set_self, get_elem?-set_ne, get_elem?-past, update, update_lem, test_bit, test_bit-le,
  test_bit-or, test_bit-and, test_bit-zero, test_bit-pow, test_bit-complement, word_ext,
  bit_and-zero, bit_and-pow, bit_and-lt, bit_or-lt, pow-lt, test_bit_of_clear, test_bit_of_set,
  bit_or-disjoint, test_bit-high, test_bit-low, test_bit-shifted, test_bit_of_lt, ℤ, pos, negsuc,
  sub_ℕ, all_below, all_below_sound,
}
use sea_star_os.CLib.Strings.{Memory, Sign, minus, same, plus, strcmp, strchr, strcat, memcpy}
use sea_star_os.Fs.Vfs.{File, fs_file, fs_dir, fs_invalid}

-- the fields of `struct tar_header`
abbrev pub size_field : ℕ
size_field = 124

abbrev pub linkflag_field : ℕ
linkflag_field = 156

abbrev pub rd_dir : ℕ
rd_dir = b'5'

-- `for (j = 11; j > 0; j--, count *= 8) size += ((in[j - 1] - '0') * count);`
unfoldable pub getsize_loop : ℕ → Memory → ℕ → ℕ → ℕ → ℕ
getsize_loop zero mem field size count = size
getsize_loop (suc j) mem field size count =
    getsize_loop j mem field (u32 (size + sub32 (mem (field + j)) b'0' * count)) (u32 (count * 8))

unfoldable pub getsize : Memory → ℕ → ℕ
getsize mem field = getsize_loop 11 mem field 0 1

pub check_subdir : ℕ → Memory → ℕ → Option Bool
check_subdir zero mem filename = none
check_subdir (suc fuel) mem filename =
    let rest = check_subdir fuel mem (filename + 1) in
    if mem filename == 0
    then some false
    else if mem filename == b'/' && not (mem (filename + 1) == 0)
    then some true
    else rest

pub check_dir : ℕ → Memory → ℕ → Option Memory
check_dir zero mem filename = none
check_dir (suc fuel) mem filename =
    let mem' =
      if mem filename == b'/' && mem (filename + 1) == 0 then update mem filename 0 else mem in
    let rest = check_dir fuel mem' (filename + 1) in if mem filename == 0 then some mem else rest

-- the bytes of a string, as strcpy takes them
pub read_string : ℕ → Memory → ℕ → Option (List ℕ)
read_string zero mem a = none
read_string (suc fuel) mem a =
    let rest : Option (List ℕ) = elim (read_string fuel mem (a + 1)) [
      | none ↦ none
      | some s ↦ some (mem a ∷ s)
    ] in
    if mem a == 0 then some [] else rest

-- strcpy into `file.name`, of 32 bytes: `none` where the name and its 0 do not fit
pub copy_name : List ℕ → Option (List ℕ)
copy_name name = if ltb (length name) 32 then some name else none

-- the next header: the size in whole blocks of 512 bytes, behind the header's own block
unfoldable pub next_header : ℕ → ℕ → ℕ
next_header address size =
    let next = u32 (address + (size / 512 + 1) * 512) in
    if size % 512 == 0 then next else u32 (next + 512)

-- the file of the header at `address`
unfoldable pub file_at : Memory → ℕ → ℕ → List ℕ → File → File
file_at mem address size name blank = record blank {
  name = name;
  id = 0;
  current_cluster = u32 (address + 512);
  file_length = size;
  eof = 0;
  position = u32 (address + 512);
  flags = if mem (address + linkflag_field) == rd_dir then fs_dir else fs_file;
}

abbrev pub invalid_file : File → File
invalid_file blank = record blank { flags = fs_invalid }

-- the comparison at one header, after check_dir: the file, or what the rest of the archive gives
pub match_header :
    ℕ
    → Memory
    → ℕ
    → ℕ
    → ℕ
    → ℕ
    → File
    → (Memory → ℕ → Option (File × Memory))
    → Option (File × Memory)
match_header fuel mem directory_name name_at address size blank rest =
    and_then (check_dir fuel mem address) λ mem'.
      and_then (strcmp fuel mem' directory_name address) (elim [
        | same ↦
            and_then (and_then (read_string fuel mem' name_at) copy_name)
              λ name. some (file_at mem' address size name blank, mem')
        | _ ↦ rest mem' (next_header address size)
      ])

-- the loop of fsysRdOpenRootDirectory
pub root_from : ℕ → ℕ → File → ℕ → Memory → ℕ → Option (File × Memory)
root_from zero fuel blank directory_name mem address = none
root_from (suc entries) fuel blank directory_name mem address =
    let size = getsize mem (address + size_field) in
    let found : Option (File × Memory) = and_then (check_subdir fuel mem address) (elim [
      | true ↦ root_from entries fuel blank directory_name mem (next_header address size)
      | false ↦
          match_header fuel mem directory_name directory_name address size blank
            (root_from entries fuel blank directory_name)
    ]) in
    if mem address == 0 then some (invalid_file blank, mem) else found

pub rd_open_root_directory : ℕ → ℕ → ℕ → File → ℕ → Memory → Option (File × Memory)
rd_open_root_directory entries fuel initrd blank directory_name mem =
    root_from entries fuel blank directory_name mem initrd

-- get_filename: what stands behind the last '/'
unfoldable pub get_filename : ℕ → Memory → ℕ → List ℕ → Option (List ℕ)
get_filename zero mem filepath fname = none
get_filename (suc fuel) mem filepath fname =
    let rest =
      get_filename fuel mem (filepath + 1)
        (if mem filepath == b'/' then [] else fname ++ (mem filepath ∷ [])) in
    if mem filepath == 0 then some fname else rest

-- the loop of fsysRdOpenSubDir, which compares whole paths
unfoldable pub sub_dir_from : ℕ → ℕ → File → ℕ → List ℕ → Memory → ℕ → Option (File × Memory)
sub_dir_from zero fuel blank filepath name mem address = none
sub_dir_from (suc entries) fuel blank filepath name mem address =
    let size = getsize mem (address + size_field) in
    let found : Option (File × Memory) = and_then (check_dir fuel mem address) λ mem'.
      and_then (strcmp fuel mem' filepath address) (elim [
        | same ↦
            and_then (copy_name name) λ name'. some (file_at mem' address size name' blank, mem')
        | _ ↦ sub_dir_from entries fuel blank filepath name mem' (next_header address size)
      ]) in
    if mem address == 0 then some (invalid_file blank, mem) else found

unfoldable pub rd_open_sub_dir : ℕ → ℕ → ℕ → File → ℕ → Memory → Option (File × Memory)
rd_open_sub_dir entries fuel initrd blank filepath mem =
    and_then (get_filename fuel mem filepath [])
      λ name. sub_dir_from entries fuel blank filepath name mem initrd

-- `for(i=0;i<100;i++)`: the part of the path up to '/' or its end, copied to the local array at
-- `pathname`, and a 0 behind it
unfoldable pub copy_part : ℕ → Memory → ℕ → ℕ → Memory
copy_part zero mem p pathname = update mem pathname 0
copy_part (suc left) mem p pathname =
    let rest = copy_part left (update mem pathname (mem p)) (p + 1) (pathname + 1) in
    if mem p == b'/' || mem p == 0 then update mem pathname 0 else rest

-- the `while(p)` loop, at `p ≢ 0`, with the first part looked up in the root directory and every
-- later one by the whole path
unfoldable pub open_parts :
    ℕ → ℕ → ℕ → ℕ → ℕ → File → ℕ → Bool → Memory → ℕ → Option (File × Memory)
open_parts zero entries fuel initrd pathname blank file_name root mem p = none
open_parts (suc parts) entries fuel initrd pathname blank file_name root mem p =
    let mem1 = copy_part 100 mem p pathname in
    let looked_up : Option (File × Memory) =
      if root
      then rd_open_root_directory entries fuel initrd blank pathname mem1
      else rd_open_sub_dir entries fuel initrd blank (file_name + 1) mem1 in
    and_then looked_up λ found.
      let (file, mem2) = found in
      let next : Option (File × Memory) = and_then (strchr fuel mem2 (p + 1) b'/') (elim [
        | zero ↦ some (if file.flags == fs_dir then file else invalid_file blank, mem2)
        | suc q ↦
            open_parts parts entries fuel initrd pathname blank file_name false mem2 (suc q + 1)
      ]) in
      if file.flags == fs_invalid
      then some (invalid_file blank, mem2)
      else if file.flags == fs_file
      then some (file, mem2)
      else next

unfoldable pub rd_open : ℕ → ℕ → ℕ → ℕ → ℕ → File → ℕ → Memory → Option (File × Memory)
rd_open parts entries fuel initrd pathname blank file_name mem =
    and_then (strchr fuel mem file_name b'/') (elim [
      | zero ↦ and_then (rd_open_root_directory entries fuel initrd blank file_name mem) λ found.
          let (file, mem') = found in
          some (
            if file.flags == fs_file || file.flags == fs_dir then file else invalid_file blank,
            mem',
          )
      | suc p ↦ open_parts parts entries fuel initrd pathname blank file_name true mem (suc p + 1)
    ])

unfoldable pub rd_close : File → File
rd_close file = record file { flags = fs_invalid }

-- `strcat((char*)buffer,'\0')` appends the string at address 0.
pub rd_read : ℕ → Memory → File → ℕ → ℕ → Option (File × Memory)
rd_read fuel mem file buffer len =
    and_then (strcat fuel (memcpy len mem buffer file.current_cluster) buffer 0) λ mem'.
      let next = u32 (file.current_cluster + len) in
      let file' =
        if leb (u32 (file.position + file.file_length)) next
        then record file { eof = 1 }
        else if next == 0
        then record file { eof = 1 }
        else record file { current_cluster = next } in
      some (file', mem')
