-- ===== src/Arch/Dma.antt =====
-- Arch/x86/Hal/dma.c and dma.h: the two DMA controllers.
--
-- A shift by a negative number, or by 32 and more, which C leaves undefined, gives `none`.
use sea_star_os.Base.{and_then}
use sea_star_os.Base.{
  ℕ, zero, suc, ◌-◌, ◌^◌, ◌<◌, bit_or, ◌≡◌, refl, ◌||◌, Option, none, some, List, [], ◌∷◌, arith,
  ltb, leb, ◌==◌, if◌then◌else◌, u8, ◌<<<◌, get_or,
}
use sea_star_os.Arch.Ports.{Ports, outportb}

pub dma_mask_channel : ℕ → Ports → Option Ports
dma_mask_channel chan m =
    if chan == 0
    then none
    else if leb chan 4
    then some (outportb 0x0A (1 <<< (chan - 1)) m)
    else if ltb chan 37
    then some (outportb 0xD4 (1 <<< (chan - 5)) m)
    else none

unfoldable pub dma_unmask_channel : ℕ → Ports → Ports
dma_unmask_channel chan m = if leb chan 4 then outportb 0x0A chan m else outportb 0xD4 chan m

pub dma_unmask_all : ℕ → Ports → Ports
dma_unmask_all dma m =
    if dma == 0 then outportb 0x0E 0xff m else if dma == 1 then outportb 0xDC 0xff m else m

unfoldable pub dma_reset : ℕ → Ports → Ports
dma_reset dma m =
    if dma == 0 then outportb 0x0D 0xff m else if dma == 1 then outportb 0xDA 0xff m else m

unfoldable pub dma_reset_flipflop : ℕ → Ports → Ports
dma_reset_flipflop dma m =
    if leb 2 dma then m else outportb (if dma == 0 then 0x0C else 0xD8) 0xff m

-- the switches over the channels; a channel that has no case keeps the port 0
abbrev pub addr_ports : List ℕ
addr_ports = 0 ∷ 2 ∷ 4 ∷ 6 ∷ 0xC0 ∷ 0xC4 ∷ 0xC8 ∷ 0xCC ∷ []

abbrev pub count_ports : List ℕ
count_ports = 1 ∷ 3 ∷ 5 ∷ 7 ∷ 0xC2 ∷ 0xC6 ∷ 0xCA ∷ 0xCE ∷ []

unfoldable pub dma_set_address : ℕ → ℕ → ℕ → Ports → Ports
dma_set_address chan low high m =
    if ltb 8 chan
    then m
    else let port = get_or addr_ports chan 0 in outportb port high (outportb port low m)

unfoldable pub dma_set_count : ℕ → ℕ → ℕ → Ports → Ports
dma_set_count chan low high m =
    if ltb 8 chan
    then m
    else let port = get_or count_ports chan 0 in outportb port high (outportb port low m)

pub dma_set_mode : ℕ → ℕ → Ports → Option Ports
dma_set_mode chan mode m =
    let dma = if ltb chan 4 then 0 else 1 in
    let fchan = if dma == 0 then chan else chan - 4 in
    and_then (dma_mask_channel chan m) λ m'.
      some
        (dma_unmask_all dma (outportb (if ltb chan 4 then 0x0B else 0xD6) (bit_or fchan mode) m'))

unfoldable pub dma_set_read : ℕ → Ports → Option Ports
dma_set_read chan m = dma_set_mode chan (bit_or 4 0x40) m

unfoldable pub dma_set_write : ℕ → Ports → Option Ports
dma_set_write chan m = dma_set_mode chan (bit_or 8 0x40) m

-- the page registers by channel; 0 for those with no case
abbrev pub page_ports : List ℕ
page_ports = 0 ∷ 0x83 ∷ 0x81 ∷ 0x82 ∷ 0 ∷ 0x89 ∷ 0x87 ∷ 0x88 ∷ []

unfoldable pub dma_set_external_page_register : ℕ → ℕ → Ports → Ports
dma_set_external_page_register reg val m =
    if ltb 14 reg || reg == 4 then m else outportb (get_or page_ports reg 0) val m

-- Setting the mode of a channel from 1 to 7 masks that channel, writes the mode with the number of
-- the channel in its controller, and takes all masks of the controller off, in this order. Channel 4
-- is masked on the other controller.
pub dma_set_mode_lem :
    (chan mode : ℕ) (ports : ℕ → List ℕ)
    → 0 < chan
    → chan < 8
    → let m : Ports = record { input = ports; out = [] } in
      dma_set_mode chan mode m ≡ (
        if ltb chan 4
        then some record {
          input = ports;
          out = (0x0A, u8 (2 ^ (chan - 1))) ∷ (0x0B, u8 (bit_or chan mode)) ∷ (0x0E, 0xff) ∷ [];
        }
        else if chan == 4
        then some record {
          input = ports;
          out = (0x0A, 8) ∷ (0xD6, u8 (bit_or 0 mode)) ∷ (0xDC, 0xff) ∷ [];
        }
        else some record {
          input = ports;
          out =
              (0xD4, u8 (2 ^ (chan - 5))) ∷ (0xD6, u8 (bit_or (chan - 4) mode)) ∷ (0xDC, 0xff) ∷ [];
        })
unfolding dma_set_mode dma_mask_channel dma_unmask_all outportb
dma_set_mode_lem zero mode ports h l = elim h [ ]
dma_set_mode_lem (suc zero) mode ports h l = refl
dma_set_mode_lem (suc (suc zero)) mode ports h l = refl
dma_set_mode_lem (suc (suc (suc zero))) mode ports h l = refl
dma_set_mode_lem (suc (suc (suc (suc zero)))) mode ports h l = refl
dma_set_mode_lem (suc (suc (suc (suc (suc zero))))) mode ports h l = refl
dma_set_mode_lem (suc (suc (suc (suc (suc (suc zero)))))) mode ports h l = refl
dma_set_mode_lem (suc (suc (suc (suc (suc (suc (suc zero))))))) mode ports h l = refl
dma_set_mode_lem (suc (suc (suc (suc (suc (suc (suc (suc n)))))))) mode ports h l =
    absurd (omega arith)
