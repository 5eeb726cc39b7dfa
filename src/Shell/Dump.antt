-- ===== src/Shell/Dump.antt =====
-- cmd_read_sect of Shell/seashell.c, the command floppydump.
--
-- The array of the number stands at an address, and the sector that the driver returns in memory.
-- The bytes that are printed are a list; the text around them is left out.
use sea_star_os.Base.{
  ℕ, zero, suc, ◌+◌, ◌-◌, ◌<◌, ◌≡◌, ap, ◌∙◌, Option, none, some, List, [], ◌∷◌, ◌++◌, arith, leb,
  ◌==◌, if◌then◌else◌, get_elem?, and_then,
}
use sea_star_os.CLib.Strings.{Memory}
use sea_star_os.CLib.Numbers.{atoi}
use sea_star_os.Drivers.Floppy.{Floppy, floppydisk_read_sector}
use sea_star_os.Drivers.Keyboard.{Keyboard}
use sea_star_os.Kernel.Display.{Screen}
use sea_star_os.Shell.Input.{getch, get_cmd}

-- the `j` loop
pub dump_bytes : ℕ → Memory → ℕ → List ℕ
dump_bytes zero mem a = []
dump_bytes (suc left) mem a = mem a ∷ dump_bytes left mem (a + 1)

-- the `c` loop, with `left` rounds to go, each of which waits for a key
pub dump_sector : ℕ → Memory → ℕ → ℕ → List Keyboard → Option (List ℕ × List Keyboard)
dump_sector zero mem sector i input = some ([], input)
dump_sector (suc left) mem sector i input = and_then (getch input) λ (key, k, input').
    and_then (dump_sector left mem sector (i + 128) input')
      λ (rest, input''). some (dump_bytes 128 mem (sector + i) ++ rest, input'')

-- what is dumped, `none` for an error of the disk, and the disk and the input behind it
pub cmd_read_sect :
    ℕ
    → ℕ
    → Memory
    → Floppy
    → Screen
    → List Keyboard
    → Option (Option (List ℕ) × Floppy × List Keyboard)
cmd_read_sect fuel sectornumbuf mem f screen input =
    and_then (get_cmd fuel (λ j. mem (sectornumbuf + j)) 3 screen input) λ line.
      let typed : Memory = λ a. if leb sectornumbuf a then line.buf (a - sectornumbuf) else mem a in
      and_then (atoi fuel typed sectornumbuf) λ sectornum.
        and_then (floppydisk_read_sector sectornum f) λ (sector, f').
          let dumped =
            and_then (dump_sector 4 typed sector 0 line.input)
              λ (bytes, input'). some (some bytes, f', input') in
          if sector == 0 then some (none, f', line.input) else dumped

-- Byte `j` of a round is the byte of the sector at its place.
pub dump_bytes_lem :
    (left : ℕ) (mem : Memory) (a j : ℕ)
    → j < left
    → get_elem? (dump_bytes left mem a) j ≡ some (mem (a + j))
unfolding dump_bytes
dump_bytes_lem zero mem a j h = absurd (omega arith)
dump_bytes_lem (suc left) mem a zero h = ap (λ x. some (mem x)) (omega arith)
dump_bytes_lem (suc left) mem a (suc j) h =
    dump_bytes_lem left mem (a + 1) j (omega arith) ∙ ap (λ x. some (mem x)) (omega arith)
