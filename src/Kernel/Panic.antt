-- ===== src/Kernel/Panic.antt =====
-- kernel_panic of Kernel/panic.c, the handlers of Kernel/exception.c, which call it, and the default
-- handler of Arch/x86/Hal/idt.c.
--
-- The loop that follows the messages does not end; what is on the screen is what is modelled.
pub mod Message
use sea_star_os.Base.{
  ℕ, zero, suc, ◌+◌, ◌-◌, ◌*◌, ◌/◌, ◌%◌, ◌^◌, ◌≤◌, ◌<◌, min, max, bit_and, bit_or, ◌≡◌, refl, sym,
  ap, ◌∙◌, ◌≢◌, ◌↔◌, ◌⊎◌, inl, inr, Bool, true, false, not, ◌&&◌, ◌||◌, Option, none, some, List,
  [], ◌∷◌, ◌++◌, map, arith, ltb, leb, ◌==◌, if◌then◌else◌, ==_iff, Bool-cases, Option-cases, u8,
  u16, u32, sub32, not32, ◌<<<◌, ◌>>>◌, length, get_elem?, get_or, set, length-append, length-set,
  get_elem?-set_self, get_elem?-set_ne, get_elem?-past, and_then, update, update_lem, test_bit,
  test_bit-le, test_bit-or, test_bit-and, test_bit-zero, test_bit-pow, test_bit-complement,
  word_ext, bit_and-zero, bit_and-pow, bit_and-lt, bit_or-lt, pow-lt, test_bit_of_clear,
  test_bit_of_set, bit_or-disjoint, bit_or_comm, test_bit-high, test_bit-low, bit_and-u8,
  bit_and-u10, bit_and-u12, bit_and-one, bit_and-u16, test_bit-shifted, test_bit_of_lt, ℤ, pos,
  negsuc, sub_ℕ, all_below, all_below_sound,
}
use sea_star_os.CLib.Strings.{Memory}
use sea_star_os.Arch.Hal.{
  Handler, default_handler, pit_irq, keyboard_irq, floppy_irq, syscall_dispatcher,
  divide_by_zero_fault, single_step_trap, nmi_trap, breakpoint_trap, overflow_trap,
  bounds_check_fault, invalid_opcode_fault, no_device_fault, double_fault_abort, invalid_tss_fault,
  no_segment_fault, stack_fault, general_protection_fault, page_fault, fpu_fault,
  alignment_check_fault, machine_check_abort, simd_fpu_fault, virtualization_exception,
  security_exception,
}
use sea_star_os.Kernel.Display.{
  Screen, kernel_clr_scr, kernel_goto_xy, kernel_set_color, kernel_puts,
}
use sea_star_os.Kernel.Display.Printf.{kernel_printf}

pub panic_message : List ℕ
panic_message =
    b'S' ∷ b'o' ∷ b'r' ∷ b'r' ∷ b'y' ∷ b' ' ∷ b'S' ∷ b'e' ∷ b'a' ∷ b'S' ∷ b't' ∷ b'a' ∷ b'r' ∷ b' '
    ∷ b'e' ∷ b'n' ∷ b'c' ∷ b'o' ∷ b'u' ∷ b'n' ∷ b't' ∷ b'e' ∷ b'r' ∷ b'e' ∷ b'd' ∷ b' ' ∷ b'a'
    ∷ b' ' ∷ b'c' ∷ b'r' ∷ b'i' ∷ b't' ∷ b'i' ∷ b'c' ∷ b'a' ∷ b'l' ∷ b' ' ∷ b'p' ∷ b'r' ∷ b'o'
    ∷ b'b' ∷ b'l' ∷ b'e' ∷ b'm' ∷ b' ' ∷ b'a' ∷ b'n' ∷ b'd' ∷ b' ' ∷ b'c' ∷ b'a' ∷ b'n' ∷ b'n'
    ∷ b'o' ∷ b't' ∷ b' ' ∷ b'c' ∷ b'o' ∷ b'n' ∷ b't' ∷ b'i' ∷ b'n' ∷ b'u' ∷ b'e' ∷ b'\n' ∷ b'Y'
    ∷ b'e' ∷ b'a' ∷ b'h' ∷ b' ' ∷ b't' ∷ b'h' ∷ b'i' ∷ b's' ∷ b' ' ∷ b'i' ∷ b's' ∷ b' ' ∷ b'a'
    ∷ b' ' ∷ b'K' ∷ b'e' ∷ b'r' ∷ b'n' ∷ b'e' ∷ b'l' ∷ b' ' ∷ b'P' ∷ b'a' ∷ b'n' ∷ b'i' ∷ b'c'
    ∷ b'.' ∷ b' ' ∷ b'A' ∷ b'n' ∷ b'y' ∷ b' ' ∷ b'u' ∷ b'n' ∷ b's' ∷ b'a' ∷ b'v' ∷ b'e' ∷ b'd'
    ∷ b' ' ∷ b'w' ∷ b'o' ∷ b'r' ∷ b'k' ∷ b' ' ∷ b'i' ∷ b's' ∷ b' ' ∷ b'l' ∷ b'o' ∷ b's' ∷ b't'
    ∷ b'.' ∷ b'\n' ∷ b'P' ∷ b'l' ∷ b'e' ∷ b'a' ∷ b's' ∷ b'e' ∷ b' ' ∷ b'r' ∷ b'e' ∷ b's' ∷ b't'
    ∷ b'a' ∷ b'r' ∷ b't' ∷ b' ' ∷ b'y' ∷ b'o' ∷ b'u' ∷ b'r' ∷ b' ' ∷ b'c' ∷ b'o' ∷ b'm' ∷ b'p'
    ∷ b'u' ∷ b't' ∷ b'e' ∷ b'r' ∷ b'.' ∷ b'\n' ∷ b'\n' ∷ []

abbrev pub stop : List ℕ
stop = b'*' ∷ b'*' ∷ b'*' ∷ b' ' ∷ b'S' ∷ b'T' ∷ b'O' ∷ b'P' ∷ b':' ∷ b' ' ∷ []

-- the loop over `fmt`, which prints one character a round
pub print_characters : ℕ → Memory → Screen → List ℕ → Option Screen
print_characters fuel mem s [] = some s
print_characters fuel mem s (c ∷ cs) =
    and_then (kernel_printf fuel mem s (b'%' ∷ b'c' ∷ []) (c ∷ []))
      λ (i, s'). print_characters fuel mem s' cs

pub kernel_panic : ℕ → Memory → Screen → List ℕ → Option Screen
kernel_panic fuel mem s fmt =
    let s1 = kernel_goto_xy (kernel_clr_scr s 0x1f) 0 0 in
    let (old, s2) = kernel_set_color s1 0x1f in
    and_then (kernel_printf fuel mem (kernel_puts s2 panic_message) stop [])
      λ (i, s3). print_characters fuel mem s3 fmt

-- what each handler panics with, `none` for a handler that is no exception's
pub fault_text : Handler → Option (List ℕ)
fault_text divide_by_zero_fault =
    some (b'D' ∷ b'i' ∷ b'v' ∷ b'i' ∷ b'd' ∷ b'e' ∷ b' ' ∷ b'b' ∷ b'y' ∷ b' ' ∷ b'0' ∷ [])
fault_text single_step_trap =
    some (b'S' ∷ b'i' ∷ b'n' ∷ b'g' ∷ b'l' ∷ b'e' ∷ b' ' ∷ b's' ∷ b't' ∷ b'e' ∷ b'p' ∷ [])
fault_text nmi_trap = some (b'N' ∷ b'M' ∷ b'I' ∷ b' ' ∷ b't' ∷ b'r' ∷ b'a' ∷ b'p' ∷ [])
fault_text breakpoint_trap = some (
    b'B' ∷ b'r' ∷ b'e' ∷ b'a' ∷ b'k' ∷ b'p' ∷ b'o' ∷ b'i' ∷ b'n' ∷ b't' ∷ b' ' ∷ b't' ∷ b'r' ∷ b'a'
    ∷ b'p' ∷ [])
fault_text overflow_trap =
    some (
      b'O' ∷ b'v' ∷ b'e' ∷ b'r' ∷ b'f' ∷ b'l' ∷ b'o' ∷ b'w' ∷ b' ' ∷ b't' ∷ b'r' ∷ b'a' ∷ b'p' ∷ [])
fault_text bounds_check_fault = some (
    b'B' ∷ b'o' ∷ b'u' ∷ b'n' ∷ b'd' ∷ b's' ∷ b' ' ∷ b'c' ∷ b'h' ∷ b'e' ∷ b'c' ∷ b'k' ∷ b' ' ∷ b'f'
    ∷ b'a' ∷ b'u' ∷ b'l' ∷ b't' ∷ [])
fault_text invalid_opcode_fault = some (
    b'I' ∷ b'n' ∷ b'v' ∷ b'a' ∷ b'l' ∷ b'i' ∷ b'd' ∷ b' ' ∷ b'o' ∷ b'p' ∷ b'c' ∷ b'o' ∷ b'd' ∷ b'e'
    ∷ [])
fault_text no_device_fault = some (
    b'D' ∷ b'e' ∷ b'v' ∷ b'i' ∷ b'c' ∷ b'e' ∷ b' ' ∷ b'n' ∷ b'o' ∷ b't' ∷ b' ' ∷ b'f' ∷ b'o' ∷ b'u'
    ∷ b'n' ∷ b'd' ∷ [])
fault_text double_fault_abort =
    some (b'D' ∷ b'o' ∷ b'u' ∷ b'b' ∷ b'l' ∷ b'e' ∷ b' ' ∷ b'F' ∷ b'a' ∷ b'u' ∷ b'l' ∷ b't' ∷ [])
fault_text invalid_tss_fault =
    some (b'I' ∷ b'n' ∷ b'v' ∷ b'a' ∷ b'l' ∷ b'i' ∷ b'd' ∷ b' ' ∷ b'T' ∷ b'S' ∷ b'S' ∷ [])
fault_text no_segment_fault = some (
    b'I' ∷ b'n' ∷ b'v' ∷ b'a' ∷ b'l' ∷ b'i' ∷ b'd' ∷ b' ' ∷ b's' ∷ b'e' ∷ b'g' ∷ b'm' ∷ b'e' ∷ b'n'
    ∷ b't' ∷ [])
fault_text stack_fault =
    some (b'S' ∷ b't' ∷ b'a' ∷ b'c' ∷ b'k' ∷ b' ' ∷ b'f' ∷ b'a' ∷ b'u' ∷ b'l' ∷ b't' ∷ [])
fault_text general_protection_fault = some (
    b'G' ∷ b'e' ∷ b'n' ∷ b'e' ∷ b'r' ∷ b'a' ∷ b'l' ∷ b' ' ∷ b'P' ∷ b'r' ∷ b'o' ∷ b't' ∷ b'e' ∷ b'c'
    ∷ b't' ∷ b'i' ∷ b'o' ∷ b'n' ∷ b' ' ∷ b'F' ∷ b'a' ∷ b'u' ∷ b'l' ∷ b't' ∷ [])
fault_text page_fault =
    some (b'P' ∷ b'a' ∷ b'g' ∷ b'e' ∷ b' ' ∷ b'F' ∷ b'a' ∷ b'u' ∷ b'l' ∷ b't' ∷ [])
fault_text fpu_fault = some (b'F' ∷ b'P' ∷ b'U' ∷ b' ' ∷ b'F' ∷ b'a' ∷ b'u' ∷ b'l' ∷ b't' ∷ [])
fault_text alignment_check_fault = some (
    b'A' ∷ b'l' ∷ b'i' ∷ b'g' ∷ b'n' ∷ b'm' ∷ b'e' ∷ b'n' ∷ b't' ∷ b' ' ∷ b'C' ∷ b'h' ∷ b'e' ∷ b'c'
    ∷ b'k' ∷ [])
fault_text machine_check_abort =
    some (
      b'M' ∷ b'a' ∷ b'c' ∷ b'h' ∷ b'i' ∷ b'n' ∷ b'e' ∷ b' ' ∷ b'C' ∷ b'h' ∷ b'e' ∷ b'c' ∷ b'k' ∷ [])
fault_text simd_fpu_fault = some (
    b'F' ∷ b'P' ∷ b'U' ∷ b' ' ∷ b'S' ∷ b'I' ∷ b'M' ∷ b'D' ∷ b' ' ∷ b'f' ∷ b'a' ∷ b'u' ∷ b'l' ∷ b't'
    ∷ [])
fault_text virtualization_exception = some (
    b'V' ∷ b'i' ∷ b'r' ∷ b't' ∷ b'u' ∷ b'a' ∷ b'l' ∷ b'i' ∷ b'z' ∷ b'a' ∷ b't' ∷ b'i' ∷ b'o' ∷ b'n'
    ∷ b' ' ∷ b'E' ∷ b'x' ∷ b'c' ∷ b'e' ∷ b'p' ∷ b't' ∷ b'i' ∷ b'o' ∷ b'n' ∷ [])
fault_text security_exception = some (
    b'S' ∷ b'e' ∷ b'c' ∷ b'u' ∷ b'r' ∷ b'i' ∷ b't' ∷ b'y' ∷ b' ' ∷ b'E' ∷ b'x' ∷ b'c' ∷ b'e' ∷ b'p'
    ∷ b't' ∷ b'i' ∷ b'o' ∷ b'n' ∷ [])
fault_text default_handler = none
fault_text pit_irq = none
fault_text keyboard_irq = none
fault_text floppy_irq = none
fault_text syscall_dispatcher = none

-- the handler of an exception
pub run_fault : ℕ → Memory → Screen → Handler → Option Screen
run_fault fuel mem s handler = and_then (fault_text handler) λ text. kernel_panic fuel mem s text

-- what i86_default_handler of Arch/x86/Hal/idt.c says
abbrev pub default_message : List ℕ
default_message =
    b'D' ∷ b'e' ∷ b'f' ∷ b'a' ∷ b'u' ∷ b'l' ∷ b't' ∷ b' ' ∷ b'H' ∷ b'a' ∷ b'n' ∷ b'd' ∷ b'l' ∷ b'e'
    ∷ b'r' ∷ b':' ∷ b' ' ∷ b'U' ∷ b'n' ∷ b'h' ∷ b'a' ∷ b'n' ∷ b'd' ∷ b'l' ∷ b'e' ∷ b'd' ∷ b' '
    ∷ b'E' ∷ b'x' ∷ b'c' ∷ b'e' ∷ b'p' ∷ b't' ∷ b'i' ∷ b'o' ∷ b'n' ∷ b'!' ∷ []

pub i86_default_handler : Screen → Screen
i86_default_handler s =
    let (old, s1) = kernel_set_color (kernel_goto_xy (kernel_clr_scr s 0x18) 0 0) 0x1e in
    kernel_puts s1 default_message
