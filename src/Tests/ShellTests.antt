-- ===== src/Tests/ShellTests.antt =====
-- Keys that are typed, and the names of the commands in memory.
use sea_star_os.Base.{ℕ, List, [], ◌∷◌, map, arith}
use sea_star_os.CLib.Strings.{Memory}
use sea_star_os.Drivers.Keyboard.{Keyboard}
use sea_star_os.Kernel.Display.{Screen}
use sea_star_os.Shell.Input.{get_cmd}
use sea_star_os.Shell.Input.Editing.{Returns, edit, get_cmd-edit}
use sea_star_os.Shell.Commands.{
  Command, halt, floppydump, cat, cd, ls, cls, time, elf32, help, unknown_command,
}
use sea_star_os.Tests.Stored.{place}

-- the driver when the key of a scan code is there
abbrev pub pressed : ℕ → Keyboard
pressed code = record {
  scancode = code;
  numlock = 0;
  scrolllock = 0;
  capslock = 0;
  shift = 0;
  alt = 0;
  ctrl = 0;
  bat_response = 0;
  diag_response = 0;
  resend_response = 0;
  is_disabled = 0;
  extendedscancode = 0;
}

abbrev pub screen : Screen
screen = record { x_pos = 0; y_pos = 3; color = 15; video = λ i. 0; out = [] }

-- no key, c, s, backspace, d, Return
abbrev typed : List Keyboard
typed = map pressed (0 ∷ 0x2e ∷ 0x1f ∷ 0x0e ∷ 0x20 ∷ 0x1c ∷ [])

get_cmd-edit_example : Returns (λ j. 7) 98 (get_cmd 7 (λ j. 7) 98 screen typed) (edit 98 [] typed)
get_cmd-edit_example = get_cmd-edit 7 98 (λ j. 7) screen typed (omega arith)

abbrev pub literal : Command → ℕ
literal c = elim c [
  | halt ↦ 100
  | floppydump ↦ 120
  | cat ↦ 140
  | cd ↦ 160
  | ls ↦ 180
  | cls ↦ 200
  | time ↦ 220
  | elf32 ↦ 240
  | help ↦ 260
  | unknown_command ↦ 0
]

abbrev pub stored : List (Command × List ℕ) → Memory
stored [] = place 10 (b'c' ∷ b'd' ∷ []) (λ a. 0)
stored ((c, name) ∷ ns) = place (literal c) name (stored ns)
