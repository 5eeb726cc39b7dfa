-- ===== src/Fs/Vfs/Dispatch.antt =====
-- What a path with a device reaches.
use sea_star_os.Base.{ℕ, ◌+◌, ◌≤◌, ◌<◌, ◌≡◌, some, arith, length, set, ◌-◌}
use sea_star_os.CLib.Strings.{Memory}
use sea_star_os.Fs.Vfs.{
  File, FileSystem, Devices, file_system_of, vol_open_file, vol_read_file, vol_close_file,
  vol_register_file_system,
}
use sea_star_os.Fs.Vfs.Table.{file_system_of-register}

module _ {S : Type 0} where
  -- With a file system mounted on `d`, from 'a' to 'z', in a table of 26 slots, opening a path
  -- `d:rest` opens `rest` there, whatever the current device, and the file is tagged with `d`;
  -- reading and closing it go to that file system.
  pub vol_open_file-register :
      (table : Devices S) (fs : FileSystem S) (blank : File) (mem : Memory) (fname d current : ℕ)
      (s : S)
      → length table ≡ 26
      → b'a' ≤ d
      → d ≤ b'z'
      → 0 < fname
      → mem fname ≡ d
      → mem (fname + 1) ≡ b':'
      → (mounted : Devices S) × (vol_register_file_system table (some fs) d ≡ some mounted)
        × (let (file, s') = fs.open_fs (fname + 2) s in
            let tagged = record file { device_id = d } in
            (vol_open_file mounted blank mem fname current s ≡ some (tagged, s'))
            × ((buffer len : ℕ)
                → vol_read_file mounted tagged buffer len s'
                  ≡ some (fs.read_fs tagged buffer len s'))
            × (vol_close_file mounted tagged s' ≡ some (fs.close_fs tagged s')))
  unfolding vol_open_file vol_read_file vol_close_file
  vol_open_file-register table fs blank mem fname d current s l lo hi p e0 e1 =
      let (stored, here, _) = file_system_of-register table fs d d l lo hi in
      let mounted = set table (d - b'a') (some fs) in
      let found : file_system_of mounted d ≡ some (some fs) = ground (arith, here) in
      (
        mounted,
        stored,
        (
          rw (e0, e1) (ground (arith, found)),
          λ buffer len. ground (arith, found),
          ground (arith, found),
        ),
      )
