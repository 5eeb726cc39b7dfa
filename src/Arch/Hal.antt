-- ===== src/Arch/Hal.antt =====
-- Arch/x86/Hal/Hal.c, with the starts of cpu.c, idt.c and pit.c: the vectors of the interrupts, and
-- the clock that is waited on.
--
-- A handler has an address. The registers that `lgdt`, `lidt` and `sti` set are left out.
pub mod Vectors
pub mod Start
use sea_star_os.Base.{
  ℕ, zero, suc, ◌+◌, ◌-◌, ◌*◌, ◌/◌, ◌%◌, ◌^◌, ◌≤◌, ◌<◌, min, max, bit_and, bit_or, ◌≡◌, refl, sym,
  ap, ◌∙◌, ◌≢◌, ◌↔◌, ◌⊎◌, inl, inr, Bool, true, false, not, ◌&&◌, ◌||◌, Option, none, some, List,
  [], ◌∷◌, ◌++◌, map, arith, ltb, leb, ◌==◌, if◌then◌else◌, ==_iff, Bool-cases, Option-cases, u8,
  u16, u32, sub32, not32, ◌<<<◌, ◌>>>◌, length, get_elem?, get_or, set, length-append, length-set,
  get_elem?-set_self, get_elem?-set_ne, get_elem?-past, and_then, update, update_lem, test_bit,
  test_bit-le, test_bit-or, test_bit-and, test_bit-zero, test_bit-pow, test_bit-complement,
  word_ext, bit_and-zero, bit_and-pow, bit_and-lt, bit_or-lt, pow-lt, test_bit_of_clear,
  test_bit_of_set, bit_or-disjoint, test_bit-high, test_bit-low, bit_and-u8, bit_and-u10,
  bit_and-u12, bit_and-one, bit_and-u16, test_bit-shifted, test_bit_of_lt, ℤ, pos, negsuc, sub_ℕ,
  all_below, all_below_sound,
}
use sea_star_os.Arch.Ports.{Ports, inportb, outportb}
use sea_star_os.Arch.Pic.{i86_pic_initialize}
use sea_star_os.Arch.Gdt.{GdtDescriptor, i86_gdt_initialize}
use sea_star_os.Arch.Idt.{IdtDescriptor, i86_max_interrupts, i86_install_ir, install_default}
use sea_star_os.Arch.Pit.{Pit, i86_pit_start_counter}

-- the functions whose addresses stand in the table
pub data Handler : Type 0 where
  default_handler : Handler
  divide_by_zero_fault : Handler
  single_step_trap : Handler
  nmi_trap : Handler
  breakpoint_trap : Handler
  overflow_trap : Handler
  bounds_check_fault : Handler
  invalid_opcode_fault : Handler
  no_device_fault : Handler
  double_fault_abort : Handler
  invalid_tss_fault : Handler
  no_segment_fault : Handler
  stack_fault : Handler
  general_protection_fault : Handler
  page_fault : Handler
  fpu_fault : Handler
  alignment_check_fault : Handler
  machine_check_abort : Handler
  simd_fpu_fault : Handler
  virtualization_exception : Handler
  security_exception : Handler
  pit_irq : Handler
  keyboard_irq : Handler
  floppy_irq : Handler
  syscall_dispatcher : Handler

-- I86_IDT_DESC_RING3
abbrev pub ring3 : ℕ
ring3 = 0x60

-- `some none` is NULL; descriptor 256 is past the table.
pub i86_get_ir : List IdtDescriptor → ℕ → Option (Option IdtDescriptor)
i86_get_ir idt i =
    if ltb i86_max_interrupts i
    then some none
    else elim (get_elem? idt i) [ none ↦ none | some d ↦ some (some d) ]

-- present, and of 32 bits
pub setvect : List IdtDescriptor → ℕ → ℕ → ℕ → Option (List IdtDescriptor)
setvect idt intno vect flags = i86_install_ir idt intno (bit_or (bit_or 0x80 0x0E) flags) 0x8 vect

pub getvect : List IdtDescriptor → ℕ → Option ℕ
getvect idt intno =
    and_then (i86_get_ir idt intno)
      (elim [ none ↦ some 0 | some d ↦ some (bit_or d.base_lo (u32 (d.base_hi <<< 16))) ])

-- `memset((void*)&_idt[0], 0, sizeof(struct idt_descriptor) * I86_MAX_INTERRUPTS - 1)`: the last
-- byte of the last descriptor is left.
pub cleared_idt : List IdtDescriptor → List IdtDescriptor
cleared_idt [] = []
cleared_idt (d ∷ []) =
    record { base_lo = 0; sel = 0; reserved = 0; flags = 0; base_hi = bit_and d.base_hi 0xFF00 }
    ∷ []
cleared_idt (d ∷ e ∷ ds) =
    record { base_lo = 0; sel = 0; reserved = 0; flags = 0; base_hi = 0 } ∷ cleared_idt (e ∷ ds)

pub i86_idt_initialize : ℕ → ℕ → List IdtDescriptor → Option (List IdtDescriptor)
i86_idt_initialize code_sel handler idt =
    install_default i86_max_interrupts 0 code_sel handler (cleared_idt idt)

pub record Hal : Type 0 where
  pub gdt : List GdtDescriptor
  pub idt : List IdtDescriptor
  pub pit : Pit
  pub ports : Ports

module _ (address : Handler → ℕ) where
  pub i86_cpu_initialize : Hal → Option Hal
  i86_cpu_initialize h = and_then (i86_gdt_initialize h.gdt) λ gdt.
      and_then (i86_idt_initialize 0x8 (address default_handler) h.idt)
        λ idt. some (record h { gdt = gdt; idt = idt })

  pub i86_pit_initialize : Hal → Option Hal
  i86_pit_initialize h =
      and_then (setvect h.idt 32 (address pit_irq) 0)
        λ idt. some (record h { idt = idt; pit = record h.pit { pit_isinit = 1 } })

  -- the counter is number 0, and its mode is the square wave
  pub hal_initialize : Hal → Option Hal
  hal_initialize h = and_then (i86_cpu_initialize h) λ h1.
      and_then (i86_pit_initialize (record h1 { ports = i86_pic_initialize 0x20 0x28 h1.ports }))
        λ h2.
          and_then (i86_pit_start_counter 100 0 0x6 h2.pit h2.ports)
            λ (pit, ports). some (record h2 { pit = pit; ports = ports })

  -- calls of setvect, one after the other
  pub set_vectors : List (ℕ × Handler × ℕ) → List IdtDescriptor → Option (List IdtDescriptor)
  set_vectors [] idt = some idt
  set_vectors ((intno, handler, flags) ∷ vs) idt =
      and_then (setvect idt intno (address handler) flags) λ idt'. set_vectors vs idt'

-- the calls for the exceptions in kmain
abbrev pub fault_vectors : List (ℕ × Handler × ℕ)
fault_vectors =
    (0, divide_by_zero_fault, 0)
    ∷ (1, single_step_trap, 0)
    ∷ (2, nmi_trap, 0)
    ∷ (3, breakpoint_trap, 0)
    ∷ (4, overflow_trap, 0)
    ∷ (5, bounds_check_fault, 0)
    ∷ (6, invalid_opcode_fault, 0)
    ∷ (7, no_device_fault, 0)
    ∷ (8, double_fault_abort, 0)
    ∷ (10, invalid_tss_fault, 0)
    ∷ (11, no_segment_fault, 0)
    ∷ (12, stack_fault, 0)
    ∷ (13, general_protection_fault, 0)
    ∷ (14, page_fault, 0)
    ∷ (16, fpu_fault, 0)
    ∷ (17, alignment_check_fault, 0)
    ∷ (18, machine_check_abort, 0)
    ∷ (19, simd_fpu_fault, 0)
    ∷ (20, virtualization_exception, 0)
    ∷ (30, security_exception, 0)
    ∷ []

-- the call of kkeyboard_install, that of floppydisk_install where a drive is present, and that of
-- syscall_init
abbrev pub device_vectors : Bool → List (ℕ × Handler × ℕ)
device_vectors true =
    (33, keyboard_irq, 0) ∷ (38, floppy_irq, 0) ∷ (0x80, syscall_dispatcher, ring3) ∷ []
device_vectors false = (33, keyboard_irq, 0) ∷ (0x80, syscall_dispatcher, ring3) ∷ []

unfoldable pub sound : ℕ → Ports → Ports
sound frequency m = outportb 0x61 (bit_or 3 (u8 (frequency <<< 2))) m

unfoldable pub i86_pit_get_tick_count : Pit → ℕ
i86_pit_get_tick_count p = p.pit_ticks

-- `while(ticks > i86_pit_get_tick_count());` over the counts that the polls see, `none` where they
-- all stay below
unfoldable pub wait_ticks : ℕ → List ℕ → Option (List ℕ)
wait_ticks ticks [] = none
wait_ticks ticks (now ∷ counts) =
    let rest = wait_ticks ticks counts in if ltb now ticks then rest else some counts

unfoldable pub sleep_ms : ℕ → List ℕ → Option (List ℕ)
sleep_ms ms [] = none
sleep_ms ms (now ∷ counts) = wait_ticks (u32 (ms + now)) counts
