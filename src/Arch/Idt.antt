-- ===== src/Arch/Idt.antt =====
-- Arch/x86/Hal/idt.c and idt.h: the descriptors of the interrupt handlers.
--
-- The table is a list of 256 descriptors, a handler its address; a write past the table, which C
-- leaves undefined, is `none`.
use sea_star_os.Base.{
  ℕ, zero, suc, ◌+◌, ◌*◌, ◌^◌, ◌≤◌, ◌<◌, bit_and, bit_or, ◌≡◌, refl, ◌∙◌, ◌↔◌, ◌&&◌, ◌||◌, Option,
  none, some, List, arith, ltb, leb, ◌==◌, if◌then◌else◌, u8, u16, ◌>>>◌, length, get_elem?, set,
  length-set, get_elem?-set_self, get_elem?-set_ne, bit_and-u16,
}

pub record IdtDescriptor : Type 0 where
  pub base_lo : ℕ
  pub sel : ℕ
  pub reserved : ℕ
  pub flags : ℕ
  pub base_hi : ℕ

abbrev pub i86_max_interrupts : ℕ
i86_max_interrupts = 256

unfoldable pub handler_descriptor : ℕ → ℕ → ℕ → IdtDescriptor
handler_descriptor flags sel irq = record {
  base_lo = u16 (bit_and irq 0xffff);
  sel = sel;
  reserved = 0;
  flags = u8 flags;
  base_hi = u16 (bit_and (irq >>> 16) 0xffff);
}

pub i86_install_ir : List IdtDescriptor → ℕ → ℕ → ℕ → ℕ → Option (List IdtDescriptor)
i86_install_ir idt i flags sel irq =
    if ltb i86_max_interrupts i || irq == 0
    then some idt
    else if ltb i (length idt)
    then some (set idt i (handler_descriptor flags sel irq))
    else none

-- the loop of i86_idt_initialize, from slot `i` on with `left` rounds to go
pub install_default : ℕ → ℕ → ℕ → ℕ → List IdtDescriptor → Option (List IdtDescriptor)
install_default zero i sel handler idt = some idt
install_default (suc left) i sel handler idt =
    elim (i86_install_ir idt i (bit_or 0x80 0x0E) sel handler) [
      | none ↦ none
      | some idt' ↦ install_default left (i + 1) sel handler idt'
    ]

-- The processor reads the handler's address, the selector and the flags back from a descriptor.
pub handler_descriptor_lem :
    (flags sel irq : ℕ)
    → irq < 2 ^ 32
    → flags < 256
    → let d = handler_descriptor flags sel irq in
      (d.base_lo + d.base_hi * 2 ^ 16 ≡ irq) × (d.flags ≡ flags) × (d.sel ≡ sel)
unfolding handler_descriptor
handler_descriptor_lem flags sel irq h f =
    (omega (arith, bit_and-u16 irq, bit_and-u16 (irq >>> 16)), omega arith, refl)

-- Installing a handler for one of the 256 interrupts sets that slot and no other; interrupt 256
-- passes the guard and is past the table.
pub i86_install_ir_lem :
    (idt : List IdtDescriptor) (i flags sel irq j : ℕ)
    → length idt ≡ 256
    → 0 < irq
    → (i < 256
        → (i86_install_ir idt i flags sel irq ≡ some (set idt i (handler_descriptor flags sel irq)))
          × (get_elem? (set idt i (handler_descriptor flags sel irq)) j
              ≡ (if j == i then some (handler_descriptor flags sel irq) else get_elem? idt j)))
      × ((i86_install_ir idt i flags sel irq ≡ none) ↔ (i ≡ 256))
unfolding i86_install_ir
i86_install_ir_lem idt i flags sel irq j l h = (
  λ b. (
    ground arith,
    ground (
      arith,
      get_elem?-set_self idt i (handler_descriptor flags sel irq),
      get_elem?-set_ne idt i j (handler_descriptor flags sel irq),
    ),
  ),
  (λ e. ground arith, λ e. ground arith),
)

-- On a table of 256 slots the loop from slot `i` ends, where `i` and its rounds are at most 256 and
-- the handler is not NULL, and the table keeps its size: each slot that it passed holds the handler, present and of 32 bits, and
-- every other slot is as it was.
pub install_default_lem :
    (left i sel handler : ℕ) (idt : List IdtDescriptor)
    → length idt ≡ 256
    → i + left ≤ 256
    → 0 < handler
    → (t : List IdtDescriptor) × (install_default left i sel handler idt ≡ some t)
      × (length t ≡ 256)
      × ((j : ℕ)
          → get_elem? t j ≡ (
              if leb i j && ltb j (i + left)
              then some (handler_descriptor 0x8E sel handler)
              else get_elem? idt j))
unfolding install_default
install_default_lem zero i sel handler idt l b h = (idt, refl, l, λ j. ground arith)
install_default_lem (suc left) i sel handler idt l b h =
    let d = handler_descriptor (bit_or 0x80 0x0E) sel handler in
    let one = i86_install_ir_lem idt i (bit_or 0x80 0x0E) sel handler in
    let (t, e, k, f) =
      install_default_lem left (i + 1) sel handler (set idt i d) (length-set idt i d ∙ l)
        (omega arith) h in
    (
      t,
      rw (install_default, ((one 0 l h).0 (omega arith)).0) e,
      k,
      λ j. ground (arith, f j, ((one j l h).0 (omega arith)).1),
    )
