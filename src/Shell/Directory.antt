-- ===== src/Shell/Directory.antt =====
-- The paths of Shell/seashell.c: cmd_change_dir, and the choice of a path that the commands share.
--
-- The arrays path, fpath (testPath) and currPath, and the literal "/", lie at the addresses of a
-- record. A file system sees the memory as it is at the call. What is printed is a list of messages;
-- the text of a message is not put on the screen.
pub mod Selection
pub mod Changing
use sea_star_os.Base.{
  ℕ, zero, suc, ◌+◌, ◌-◌, ◌*◌, ◌/◌, ◌%◌, ◌^◌, ◌≤◌, ◌<◌, min, max, bit_and, bit_or, ◌≡◌, refl, sym,
  ap, ◌∙◌, ◌≢◌, ◌↔◌, ◌⊎◌, inl, inr, Bool, true, false, not, ◌&&◌, ◌||◌, Option, none, some, List,
  [], ◌∷◌, ◌++◌, map, arith, ltb, leb, ◌==◌, if◌then◌else◌, ==_iff, Bool-cases, Option-cases, u8,
  u16, u32, sub32, not32, ◌<<<◌, ◌>>>◌, length, get_elem?, get_or, set, length-append, length-set,
  get_elem?-set_self, get_elem?-set_ne, get_elem?-past, and_then, update, update_lem, test_bit,
  test_bit-le, test_bit-or, test_bit-and, test_bit-zero, test_bit-pow, test_bit-complement,
  word_ext, bit_and-zero, bit_and-pow, bit_and-lt, bit_or-lt, pow-lt, test_bit_of_clear,
  test_bit_of_set, bit_or-disjoint, test_bit-high, test_bit-low, bit_and-u8, bit_and-u10,
  bit_and-u12, bit_and-one, bit_and-u16, test_bit-shifted, test_bit_of_lt, ℤ, pos, negsuc, sub_ℕ,
  all_below, all_below_sound,
}
use sea_star_os.CLib.Strings.{Memory, strcpy, strcat}
use sea_star_os.Drivers.Keyboard.{Keyboard}
use sea_star_os.Kernel.Display.{Screen}
use sea_star_os.Fs.Vfs.{
  File, Devices, fs_dir, fs_invalid, vol_open_file, vol_read_file, vol_close_file,
}
use sea_star_os.Shell.Input.{Line, getch, get_cmd}

pub record Places : Type 0 where
  pub path : ℕ
  pub fpath : ℕ
  pub curr_path : ℕ
  pub slash : ℕ

-- the message is said of a file, or of a directory
pub data Said : Type 0 where
  directory_not_found : Said
  unable_to_open : Said
  unable_to_display : Said
  contents : (buf : ℕ → ℕ) → Said
  press_a_key : Said
  end_of_file : Said

-- the shell between two commands; the file systems work on the memory and on `disk`
pub record Shell (D : Type 0) : Type 0 where
  pub mem : Memory
  pub disk : D
  pub screen : Screen
  pub input : List Keyboard
  pub said : List Said

-- `path[2]=='>'`
abbrev pub is_whole_path : Memory → ℕ → Bool
is_whole_path mem path = mem (path + 2) == b'>'

-- the path of the file: the path typed, or the path typed behind the current one
pub select_path : ℕ → Memory → Places → Option Memory
select_path fuel mem at =
    let relative =
      and_then (strcpy fuel mem at.fpath at.curr_path) λ mem'. strcat fuel mem' at.fpath at.path in
    if is_whole_path mem at.path then strcpy fuel mem at.fpath at.path else relative

-- the new current path, with the slash
pub enter_directory : ℕ → Memory → Places → Option Memory
enter_directory fuel mem at =
    let entered =
      if is_whole_path mem at.path
      then strcpy fuel mem at.curr_path at.path
      else strcat fuel mem at.curr_path at.path in
    and_then entered λ mem'. strcat fuel mem' at.curr_path at.slash

module _ {D : Type 0} (table : Devices (Memory × D)) (blank : File) (at : Places) where
  -- get_cmd on the array of 32 bytes
  unfoldable pub get_path : ℕ → Shell D → Option (Shell D)
  get_path fuel s = and_then (get_cmd fuel (λ j. s.mem (at.path + j)) 32 s.screen s.input) λ line.
      some (record s {
        mem = λ a. if leb at.path a then line.buf (a - at.path) else s.mem a;
        screen = line.screen;
        input = line.input;
      })

  -- the path of the file, then volOpenFile
  pub open_selected : ℕ → Shell D → Option (File × Shell D)
  open_selected fuel s = and_then (select_path fuel s.mem at) λ mem.
      and_then (vol_open_file table blank mem at.fpath (mem at.curr_path) (mem, s.disk))
        λ (file, (mem', disk)). some (file, record s { mem = mem'; disk = disk })

  -- the tests on the file
  pub follow_directory : ℕ → File → Shell D → Option (Shell D)
  follow_directory fuel file s =
      let entered = and_then (enter_directory fuel s.mem at) λ mem. some (record s { mem = mem }) in
      if file.flags == fs_dir
      then entered
      else some (record s { said = s.said ++ directory_not_found ∷ [] })

  pub cmd_change_dir : ℕ → Shell D → Option (Shell D)
  cmd_change_dir fuel s = and_then (get_path fuel s) λ typed.
      and_then (open_selected fuel typed) λ (file, opened). follow_directory fuel file opened

  -- the `while(file.eof != 1)` loop of cmd_read_file; the local array `buf` stands at `buffer`
  unfoldable pub read_file_loop : ℕ → ℕ → File → Shell D → Option (File × Shell D)
  read_file_loop zero buffer file s = none
  read_file_loop (suc fuel) buffer file s =
      let more =
        and_then (vol_read_file table file buffer 512 (s.mem, s.disk)) λ (file', (mem, disk)).
          let shown = record s {
            mem = mem;
            disk = disk;
            said = s.said ++ contents (λ k. mem (buffer + k)) ∷ [];
          } in
          let next = read_file_loop fuel buffer file' shown in
          let waited = and_then (getch shown.input) λ (key, k, input).
            read_file_loop fuel buffer file'
              (record shown { input = input; said = shown.said ++ press_a_key ∷ [] }) in
          if file'.eof == 1 then next else waited in
      if file.eof == 1 then some (file, s) else more

  unfoldable pub cmd_read_file : ℕ → ℕ → Shell D → Option (Shell D)
  cmd_read_file fuel buffer s = and_then (get_path fuel s) λ typed.
      and_then (open_selected fuel typed) λ (file, t).
        let read = and_then (read_file_loop fuel buffer file t) λ (file', u).
          and_then (vol_close_file table file' (u.mem, u.disk)) λ (file'', (mem, disk)).
            some (record u { mem = mem; disk = disk; said = u.said ++ end_of_file ∷ [] }) in
        if file.flags == fs_invalid
        then some (record t { said = t.said ++ unable_to_open ∷ [] })
        else if file.flags == fs_dir
        then some (record t { said = t.said ++ unable_to_display ∷ [] })
        else read
