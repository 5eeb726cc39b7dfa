-- ===== src/Tests/VfsTests.antt =====
-- The table of file systems with one file system mounted on 'c'.
use sea_star_os.Base.{ℕ, ◌+◌, ◌≡◌, refl, none, some, [], ◌∷◌, arith, ◌==◌, if◌then◌else◌}
use sea_star_os.CLib.Strings.{Memory}
use sea_star_os.Fs.Vfs.{
  File, FileSystem, Devices, vol_open_file, vol_read_file, vol_close_file, vol_register_file_system,
  vol_unregister_file_system_by_id,
}
use sea_star_os.Fs.Vfs.Table.{IsSlotSet, register_in_bounds}
use sea_star_os.Fs.Vfs.Dispatch.{vol_open_file-register}

abbrev blank_file : File
blank_file = record {
  name = [];
  flags = 0;
  file_length = 0;
  id = 0;
  eof = 0;
  position = 0;
  current_cluster = 0;
  device_id = 0;
}

-- a file system that counts its calls
abbrev counting : FileSystem ℕ
counting = record {
  address = 7;
  directory = λ dname s. s + 1;
  read_fs = λ file buffer len s. (record file { position = file.position + len }, s + 1);
  close_fs = λ file s. (record file { flags = 2 }, s + 1);
  open_fs = λ fname s. (record blank_file { id = fname }, s + 1);
}

abbrev no_devices : Devices ℕ
no_devices =
    none ∷ none ∷ none ∷ none ∷ none ∷ none ∷ none ∷ none ∷ none ∷ none ∷ none ∷ none ∷ none ∷ none
    ∷ none ∷ none ∷ none ∷ none ∷ none ∷ none ∷ none ∷ none ∷ none ∷ none ∷ none ∷ none ∷ []

-- "c:x" at 50
abbrev path : Memory
path a = if a == 50 then b'c' else if a == 51 then b':' else if a == 52 then b'x' else 0

register_in_bounds_example :
    ((table : Devices ℕ) × (vol_register_file_system no_devices (some counting) b'A' ≡ some table)
      × IsSlotSet no_devices b'A' (some counting) table)
    × ((table : Devices ℕ) × (vol_unregister_file_system_by_id no_devices b'A' ≡ some table)
        × IsSlotSet no_devices b'A' none table)
register_in_bounds_example = register_in_bounds no_devices counting b'A' refl (omega arith)

vol_open_file-register_example :
    (mounted : Devices ℕ) × (vol_register_file_system no_devices (some counting) b'c'
      ≡ some mounted)
    × (let tagged = record blank_file { id = 52; device_id = b'c' } in
        (vol_open_file mounted blank_file path 50 b'a' 3 ≡ some (tagged, 4))
        × ((buffer len : ℕ)
            → vol_read_file mounted tagged buffer len 4
              ≡ some (record tagged { position = 0 + len }, 5))
        × (vol_close_file mounted tagged 4 ≡ some (record tagged { flags = 2 }, 5)))
vol_open_file-register_example =
    vol_open_file-register no_devices counting blank_file path 50 b'c' b'a' 3 refl (omega arith)
      (omega arith) (omega arith) refl refl
