-- ===== src/Shell/Main.antt =====
-- SeaShell of Shell/seashell.c: the loop that reads a line and runs its command.
--
-- cd and cat are the functions of the shell; what the other commands do to it is a parameter. The
-- prompt is not put on the screen.
pub mod Session
use sea_star_os.Base.{
  ℕ, zero, suc, ◌+◌, ◌-◌, ◌*◌, ◌/◌, ◌%◌, ◌^◌, ◌≤◌, ◌<◌, min, max, bit_and, bit_or, ◌≡◌, refl, sym,
  ap, ◌∙◌, ◌≢◌, ◌↔◌, ◌⊎◌, inl, inr, Bool, true, false, not, ◌&&◌, ◌||◌, Option, none, some, List,
  [], ◌∷◌, ◌++◌, map, arith, ltb, leb, ◌==◌, if◌then◌else◌, ==_iff, Bool-cases, Option-cases, u8,
  u16, u32, sub32, not32, ◌<<<◌, ◌>>>◌, length, get_elem?, get_or, set, length-append, length-set,
  get_elem?-set_self, get_elem?-set_ne, get_elem?-past, and_then, update, update_lem, test_bit,
  test_bit-le, test_bit-or, test_bit-and, test_bit-zero, test_bit-pow, test_bit-complement,
  word_ext, bit_and-zero, bit_and-pow, bit_and-lt, bit_or-lt, pow-lt, test_bit_of_clear,
  test_bit_of_set, bit_or-disjoint, bit_or_comm, test_bit-high, test_bit-low, bit_and-u8,
  bit_and-u10, bit_and-u12, bit_and-one, bit_and-u16, test_bit-shifted, test_bit_of_lt, ℤ, pos,
  negsuc, sub_ℕ, all_below, all_below_sound,
}
use sea_star_os.CLib.Strings.{Memory, strcpy}
use sea_star_os.Fs.Vfs.{File, Devices}
use sea_star_os.Shell.Input.{Line, get_cmd}
use sea_star_os.Shell.Commands.{Command, cat, cd, run_cmd}
use sea_star_os.Shell.Directory.{Places, Shell, cmd_change_dir, cmd_read_file}

module _ {D : Type 0} (table : Devices (Memory × D)) (blank : File) (at : Places)
    (other : Command → Shell D → Option (Shell D)) (literal : Command → ℕ)
    (cmd_buf buffer root : ℕ) where
  -- get_cmd on the array of 100 bytes
  unfoldable pub read_line : ℕ → Shell D → Option (Shell D)
  read_line fuel s = and_then (get_cmd fuel (λ j. s.mem (cmd_buf + j)) 98 s.screen s.input) λ line.
      some (record s {
        mem = λ a. if leb cmd_buf a then line.buf (a - cmd_buf) else s.mem a;
        screen = line.screen;
        input = line.input;
      })

  unfoldable pub run_command : ℕ → Command → Shell D → Option (Shell D)
  run_command fuel cd s = cmd_change_dir table blank at fuel s
  run_command fuel cat s = cmd_read_file table blank at fuel buffer s
  run_command fuel c s = other c s

  -- `none` where the rounds run out
  pub sea_shell_loop : ℕ → ℕ → Shell D → Option (Shell D)
  sea_shell_loop zero fuel s = none
  sea_shell_loop (suc rounds) fuel s = and_then (read_line fuel s) λ t.
      and_then (run_cmd (run_command fuel) fuel t.mem cmd_buf literal t) λ (status, u).
        let rest = sea_shell_loop rounds fuel u in if status == 1 then some u else rest

  -- The literal "x:/" lies at `root`.
  pub sea_shell : ℕ → ℕ → Shell D → Option (Shell D)
  sea_shell rounds fuel s =
      and_then (strcpy fuel s.mem at.curr_path root)
        λ mem. sea_shell_loop rounds fuel (record s { mem = mem })
