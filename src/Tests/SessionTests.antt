-- ===== src/Tests/SessionTests.antt =====
-- A session of two lines, ls and halt.
use sea_star_os.Base.{
  ℕ, zero, suc, ◌+◌, ◌≡◌, ◌≢◌, refl, inl, inr, Option, none, some, List, [], ◌∷◌, map, arith,
  get_elem?, get_or, ap, update,
}
use sea_star_os.CLib.Strings.{Memory}
use sea_star_os.Drivers.Keyboard.{
  kkeyboard_get_last_key, kkeyboard_discard_last_key, kkeyboard_key_to_ascii,
}
use sea_star_os.Fs.Vfs.{File, Devices}
use sea_star_os.Shell.Input.{get_cmd, get_cmd_loop, getch, type_key}
use sea_star_os.Shell.Commands.{Command, halt, ls, names}
use sea_star_os.Shell.Commands.Naming.{IsNamed}
use sea_star_os.Shell.Directory.{Places, Shell}
use sea_star_os.Shell.Main.{read_line, run_command, sea_shell_loop}
use sea_star_os.Shell.Main.Session.{halt_line, IsRound, sea_shell_loop-IsSession}
use sea_star_os.Tests.Stored.{is_string_sound}
use sea_star_os.Tests.ShellTests.{pressed, screen, literal, stored}

abbrev no_file : File
no_file = record {
  name = [];
  flags = 0;
  file_length = 0;
  id = 0;
  eof = 0;
  position = 0;
  current_cluster = 0;
  device_id = 0;
}

abbrev places : Places
places = record { path = 20; fpath = 30; curr_path = 40; slash = 50 }

abbrev no_devices : Devices (Memory × ℕ)
no_devices = []

-- the other commands count their calls
abbrev counted : Command → Shell ℕ → Option (Shell ℕ)
counted c s = some (record s { disk = s.disk + 1 })

-- l, s, Return, then h, a, l, t, Return
abbrev start : Shell ℕ
start = record {
  mem = stored names;
  disk = 0;
  screen = screen;
  input = map pressed (0x26 ∷ 0x1f ∷ 0x1c ∷ 0x23 ∷ 0x1e ∷ 0x26 ∷ 0x14 ∷ 0x1c ∷ []);
  said = [];
}

abbrev after : Option (Shell ℕ) → Shell ℕ → Shell ℕ
after o s = elim o as (λ _. Shell ℕ) [ none ↦ s | some t ↦ t ]

abbrev line_read : Shell ℕ → Shell ℕ
line_read s = after (read_line no_devices no_file places counted literal 1000 2000 3000 20 s) s

abbrev first_typed : Shell ℕ
first_typed = line_read start

abbrev first_done : Shell ℕ
first_done = record first_typed { disk = 1 }

abbrev second_typed : Shell ℕ
second_typed = line_read first_done

abbrev second_done : Shell ℕ
second_done = record second_typed { disk = 2 }

first_apart : {c d : ℕ} {cs ds : List ℕ} → (c ∷ cs) ≡ (d ∷ ds) → c ≢ d → ⊥
first_apart e ne = ne (ap (λ l. get_or l 0 0) e)

ls-IsNamed : IsNamed (b'l' ∷ b's' ∷ []) names ls
ls-IsNamed = inr (
  λ e. absurd (first_apart e (omega arith)),
  inr (
    λ e. absurd (first_apart e (omega arith)),
    inr (
      λ e. absurd (first_apart e (omega arith)),
      inr (λ e. absurd (first_apart e (omega arith)), inl (refl, refl)),
    ),
  ),
)

start-IsRound :
    IsRound no_devices no_file places counted literal 1000 2000 3000 20
      (b'l' ∷ b's' ∷ [])
      start
      first_done
unfolding read_line run_command get_cmd get_cmd_loop getch type_key kkeyboard_get_last_key
    kkeyboard_discard_last_key kkeyboard_key_to_ascii update
start-IsRound = record {
  typed = first_typed;
  command = ls;
  reads = refl;
  stored = is_string_sound first_typed.mem 1000 (b'l' ∷ b's' ∷ []) refl;
  literals = omega arith;
  named = ls-IsNamed;
  runs = refl;
}

first_done-IsRound :
    IsRound no_devices no_file places counted literal 1000 2000 3000 20 halt_line first_done
      second_done
unfolding read_line run_command get_cmd get_cmd_loop getch type_key kkeyboard_get_last_key
    kkeyboard_discard_last_key kkeyboard_key_to_ascii update
first_done-IsRound = record {
  typed = second_typed;
  command = halt;
  reads = refl;
  stored = is_string_sound second_typed.mem 1000 halt_line refl;
  literals = omega arith;
  named = inl (refl, refl);
  runs = refl;
}

not_halt : (i : ℕ) → get_elem? ((b'l' ∷ b's' ∷ []) ∷ []) i ≢ some halt_line
not_halt zero e = cc
not_halt (suc i) e = cc

sea_shell_loop-IsSession_example :
    sea_shell_loop no_devices no_file places counted literal 1000 2000 3000 2 20 start
    ≡ some second_done
sea_shell_loop-IsSession_example =
    sea_shell_loop-IsSession no_devices no_file places counted literal 1000 2000 3000 20
      ((b'l' ∷ b's' ∷ []) ∷ []) 2 start first_done second_done not_halt
      (first_done, start-IsRound, refl) first_done-IsRound (omega arith)
