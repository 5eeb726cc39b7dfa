-- ===== src/Fs/Vfs.antt =====
-- Fs/vfs.c and Include/fs/vfs.h: files, and the table of mounted file systems.
--
-- A file system is its address and its functions, which act on the state `S` of the machine. The
-- table is a list of 26 slots; an index out of it, which C leaves undefined, gives `none`.
pub mod Table
pub mod Dispatch
use sea_star_os.Base.{
  ℕ, zero, suc, ◌+◌, ◌-◌, ◌*◌, ◌/◌, ◌%◌, ◌^◌, ◌≤◌, ◌<◌, min, max, bit_and, bit_or, ◌≡◌, refl, sym,
  ap, ◌∙◌, ◌≢◌, ◌↔◌, ◌⊎◌, inl, inr, Bool, true, false, not, ◌&&◌, ◌||◌, Option, none, some, List,
  [], ◌∷◌, ◌++◌, map, arith, ltb, leb, ◌==◌, if◌then◌else◌, ==_iff, Bool-cases, Option-cases, u8,
  u16, u32, sub32, not32, ◌<<<◌, ◌>>>◌, length, get_elem?, get_or, set, length-append, length-set,
  get_elem?-set_self, get_elem?-set_ne, update, update_lem, test_bit, test_bit-le, test_bit-or,
  test_bit-and, test_bit-zero, test_bit-pow, test_bit-complement, word_ext, bit_and-zero,
  bit_and-pow, bit_and-lt, bit_or-lt, pow-lt, test_bit_of_clear, test_bit_of_set, bit_or-disjoint,
  test_bit-high, test_bit-low, test_bit-shifted, test_bit_of_lt, ℤ, pos, negsuc, sub_ℕ, all_below,
  all_below_sound,
}
use sea_star_os.CLib.Strings.{Memory}

pub record File : Type 0 where
  pub name : List ℕ
  pub flags : ℕ
  pub file_length : ℕ
  pub id : ℕ
  pub eof : ℕ
  pub position : ℕ
  pub current_cluster : ℕ
  pub device_id : ℕ

abbrev pub fs_file : ℕ
fs_file = 0

abbrev pub fs_dir : ℕ
fs_dir = 1

abbrev pub fs_invalid : ℕ
fs_invalid = 2

-- `read_fs` and `close_fs` return the file that they change through its pointer. Name and Mount, which
-- no function of this file reads, are left out.
pub record FileSystem (S : Type 0) : Type 0 where
  pub address : ℕ
  pub directory : ℕ → S → S
  pub read_fs : File → ℕ → ℕ → S → File × S
  pub close_fs : File → S → File × S
  pub open_fs : ℕ → S → File × S

abbrev pub max_devices : ℕ
max_devices = 26

abbrev pub Devices : Type 0 → Type 0
Devices S = List (Option (FileSystem S))

-- `device` as the path gives it, and the rest of the path, at `fname ≢ 0`
abbrev pub path_device : Memory → ℕ → ℕ → ℕ
path_device mem fname device = if mem (fname + 1) == b':' then mem fname else device

abbrev pub path_name : Memory → ℕ → ℕ → ℕ
path_name mem fname skip = if mem (fname + 1) == b':' then fname + skip else fname

module _ {S : Type 0} where
  -- `_FileSystems[device - 'a']`
  unfoldable pub file_system_of : Devices S → ℕ → Option (Option (FileSystem S))
  file_system_of table device = if ltb device b'a' then none else get_elem? table (device - b'a')

  -- `blank` is the file with no field set, of which only the flags are written.
  unfoldable pub vol_open_file : Devices S → File → Memory → ℕ → ℕ → S → Option (File × S)
  vol_open_file table blank mem fname device s =
      let invalid = record blank { flags = fs_invalid } in
      let dev = path_device mem fname device in
      let opened : Option (File × S) = elim (file_system_of table dev) [
        | none ↦ none
        | some none ↦ some (invalid, s)
        | some (some fs) ↦
            let (file, s') = fs.open_fs (path_name mem fname 2) s in
            some (record file { device_id = dev }, s')
      ] in
      if fname == 0 then some (invalid, s) else opened

  unfoldable pub vol_read_dir : Devices S → Memory → ℕ → ℕ → S → Option S
  vol_read_dir table mem dname device s =
      let listed : Option S = elim (file_system_of table (path_device mem dname device)) [
        | none ↦ none
        | some none ↦ some s
        | some (some fs) ↦ some (fs.directory (path_name mem dname 3) s)
      ] in
      if dname == 0 then some s else listed

  -- The file is the one that the pointer names; a NULL pointer does nothing in C.
  unfoldable pub vol_read_file : Devices S → File → ℕ → ℕ → S → Option (File × S)
  vol_read_file table file buffer len s = elim (file_system_of table file.device_id) [
    | none ↦ none
    | some none ↦ some (file, s)
    | some (some fs) ↦ some (fs.read_fs file buffer len s)
  ]

  unfoldable pub vol_close_file : Devices S → File → S → Option (File × S)
  vol_close_file table file s = elim (file_system_of table file.device_id) [
    | none ↦ none
    | some none ↦ some (file, s)
    | some (some fs) ↦ some (fs.close_fs file s)
  ]

  -- `_FileSystems[num] = slot`
  pub store_slot : Devices S → ℕ → Option (FileSystem S) → Option (Devices S)
  store_slot table num slot = if ltb num (length table) then some (set table num slot) else none

  -- `fsys` is `none` for a NULL file system. `deviceNum` is unsigned, so a device below 'a' is a large
  -- number.
  pub vol_register_file_system : Devices S → Option (FileSystem S) → ℕ → Option (Devices S)
  vol_register_file_system table fsys device =
      let num = sub32 device b'a' in
      if ltb num max_devices
      then elim fsys [ none ↦ some table | some fs ↦ store_slot table num (some fs) ]
      else some table

  -- the loop over the slots: those that point to `fsys` are emptied
  pub vol_unregister_file_system : Devices S → FileSystem S → Devices S
  vol_unregister_file_system [] fsys = []
  vol_unregister_file_system (none ∷ table) fsys = none ∷ vol_unregister_file_system table fsys
  vol_unregister_file_system (some fs ∷ table) fsys =
      (if fs.address == fsys.address then none else some fs) ∷ vol_unregister_file_system table fsys

  pub vol_unregister_file_system_by_id : Devices S → ℕ → Option (Devices S)
  vol_unregister_file_system_by_id table device =
      let num = sub32 device b'a' in
      if ltb num max_devices then store_slot table num none else some table
