-- ===== src/Arch/Ports.antt =====
-- Arch/x86/Hal/Hal.c, inportb and outportb: the ports of the machine.
--
-- A device is what it answers: `input p` holds the bytes that the next reads of port `p` give, one
-- after the other, and a read is `none` where the list ends. `out` is the list of the writes, each a
-- port and a byte, in order.
use sea_star_os.Base.{ℕ, Option, none, some, List, [], ◌∷◌, ◌++◌, u8, update}

pub record Ports : Type 0 where
  pub input : ℕ → List ℕ
  pub out : List (ℕ × ℕ)

unfoldable pub inportb : ℕ → Ports → Option (ℕ × Ports)
inportb port m = elim (m.input port) [
  | [] ↦ none
  | v ∷ vs ↦ some (v, record m { input = update m.input port vs })
]

unfoldable pub outportb : ℕ → ℕ → Ports → Ports
outportb port value m = record m { out = m.out ++ ((port, u8 value) ∷ []) }
