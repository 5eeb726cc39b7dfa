-- ===== src/Tests/ChangeDirTests.antt =====
-- cd into a directory of a file system that opens every path as a directory.
use sea_star_os.Base.{
  ℕ, zero, suc, ◌≡◌, refl, ap, false, none, some, List, [], ◌∷◌, ◌++◌, arith, ◌==◌, if◌then◌else◌,
  update,
}
use sea_star_os.CLib.Strings.{Memory, IsString}
use sea_star_os.Drivers.Keyboard.{
  kkeyboard_get_last_key, kkeyboard_discard_last_key, kkeyboard_key_to_ascii,
}
use sea_star_os.Fs.Vfs.{
  File, FileSystem, Devices, fs_dir, vol_open_file, file_system_of, path_device,
}
use sea_star_os.Shell.Input.{getch, type_key, get_cmd_loop, get_cmd}
use sea_star_os.Shell.Directory.{Places, Shell, get_path, cmd_change_dir}
use sea_star_os.Shell.Directory.Selection.{AreLaidOut}
use sea_star_os.Shell.Directory.Changing.{HasPaths, Opens, cmd_change_dir_lem}
use sea_star_os.Tests.Stored.{place, is_string_sound}
use sea_star_os.Tests.ShellTests.{pressed, screen}

abbrev at : Places
at = record { path = 10; fpath = 100; curr_path = 700; slash = 1300 }

-- the current path is "x:/"
abbrev root : List ℕ
root = b'x' ∷ b':' ∷ b'/' ∷ []

abbrev mem : Memory
mem = place 700 root (place 1300 (b'/' ∷ []) (λ a. 0))

abbrev blank : File
blank = record {
  name = [];
  flags = 0;
  file_length = 0;
  id = 0;
  eof = 0;
  position = 0;
  current_cluster = 0;
  device_id = 0;
}

abbrev directories : FileSystem (Memory × ℕ)
directories = record {
  address = 4;
  directory = λ name s. s;
  read_fs = λ file buffer n s. (file, s);
  close_fs = λ file s. (file, s);
  open_fs = λ name s. (record blank { flags = fs_dir }, s);
}

abbrev mounted : ℕ → Devices (Memory × ℕ)
mounted zero = some directories ∷ []
mounted (suc n) = none ∷ mounted n

abbrev table : Devices (Memory × ℕ)
table = mounted 23

-- a and Return are typed
abbrev shell : Shell ℕ
shell = record {
  mem = mem;
  disk = 0;
  screen = screen;
  input = pressed 0x1e ∷ pressed 0x1c ∷ [];
  said = [];
}

abbrev opened : File
opened = record blank { flags = fs_dir; device_id = b'x' }

shell_path : (s : Shell ℕ) × (get_path table blank at 500 shell ≡ some s)
unfolding get_path get_cmd get_cmd_loop getch type_key kkeyboard_get_last_key
    kkeyboard_discard_last_key kkeyboard_key_to_ascii update
shell_path = (_, refl)

shell-HasPaths : HasPaths shell_path.0.mem at root (b'a' ∷ [])
unfolding shell_path get_path get_cmd get_cmd_loop getch type_key kkeyboard_get_last_key
    kkeyboard_discard_last_key kkeyboard_key_to_ascii update
shell-HasPaths = record {
  current = is_string_sound shell_path.0.mem 700 root refl;
  typed = is_string_sound shell_path.0.mem 10 (b'a' ∷ []) refl;
  slash = is_string_sound shell_path.0.mem 1300 (b'/' ∷ []) refl;
}

shell-relative : (shell_path.0.mem 12 == b'>') ≡ false
unfolding shell_path get_path get_cmd get_cmd_loop getch type_key kkeyboard_get_last_key
    kkeyboard_discard_last_key kkeyboard_key_to_ascii update
shell-relative = refl

Opens-relative : (disk : ℕ) → Opens table blank at disk (root ++ b'a' ∷ []) opened
unfolding vol_open_file file_system_of
Opens-relative disk m (c0, n0, (c1, n1, more)) =
    let colon : m 101 ≡ b':' = c1 in
    let device : path_device m 100 (m 700) ≡ b'x' = rw (colon, c0) refl in
    (
      m,
      disk,
      rw device (ap (λ v. some (record blank { flags = fs_dir; device_id = v }, (m, disk))) device),
      λ x o. refl,
    )

shell-Opens :
    Opens table blank at shell_path.0.disk
      (if shell_path.0.mem 12 == b'>' then b'a' ∷ [] else root ++ b'a' ∷ [])
      opened
shell-Opens = rw shell-relative (Opens-relative shell_path.0.disk)

paths-AreLaidOut : AreLaidOut at root (b'a' ∷ [])
paths-AreLaidOut = record {
  path_fpath = omega arith;
  path_curr_path = omega arith;
  fpath_curr_path = omega arith;
  slash_path = omega arith;
  slash_fpath = omega arith;
  slash_curr_path = omega arith;
  path_fits = omega arith;
  paths_fit = omega arith;
}

cmd_change_dir_lem_example :
    (t : Shell ℕ) × (cmd_change_dir table blank at 500 shell ≡ some t)
    × IsString t.mem 700
        ((if shell_path.0.mem 12 == b'>' then b'a' ∷ [] else root ++ b'a' ∷ []) ++ b'/' ∷ [])
    × (t.said ≡ shell_path.0.said)
cmd_change_dir_lem_example =
    cmd_change_dir_lem table blank at 500 shell shell_path.0 root (b'a' ∷ []) opened shell_path.1
      paths-AreLaidOut shell-HasPaths (omega arith) shell-Opens
