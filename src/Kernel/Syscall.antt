-- ===== src/Kernel/Syscall.antt =====
-- Kernel/syscall.c: the dispatcher of the system calls, and its installation.
--
-- The registers are words, and the saved ones are the arguments of the function that is called: its
-- first one is ebx. `none` is an entry of the table of functions that is not there, or a string
-- without an end in memory.
use sea_star_os.Base.{
  ℕ, zero, suc, ◌-◌, ◌^◌, ◌<◌, ◌≡◌, refl, false, ◌&&◌, Option, none, some, List, [], ◌∷◌, arith,
  ltb, ◌==◌, if◌then◌else◌, length, get_elem?, and_then,
}
use sea_star_os.CLib.Strings.{Memory, IsString}
use sea_star_os.Fs.Ramdisk.{read_string}
use sea_star_os.Fs.Ramdisk.Headers.{read_string_lem}
use sea_star_os.Kernel.Display.{Screen, kernel_puts}
use sea_star_os.Arch.Idt.{IdtDescriptor}
use sea_star_os.Arch.Hal.{ring3, setvect}

abbrev pub total_syscalls : ℕ
total_syscalls = 1

-- kernelPuts of the string at an address; a null pointer puts nothing
pub puts_at : ℕ → Memory → Screen → ℕ → Option Screen
puts_at fuel mem s str =
    let put = and_then (read_string fuel mem str) λ text. some (kernel_puts s text) in
    if str == 0 then some s else put

-- `_syscalls`, the functions on the first argument
abbrev pub syscalls : List (ℕ → Memory → Screen → ℕ → Option Screen)
syscalls = puts_at ∷ []

-- `eax` is signed, so a word with the top bit passes the test.
pub syscall_dispatcher : ℕ → Memory → ℕ → ℕ → Screen → Option Screen
syscall_dispatcher fuel mem eax ebx s =
    if ltb eax (2 ^ 31) && ltb (total_syscalls - 1) eax
    then some s
    else and_then (get_elem? syscalls eax) λ fnct. fnct fuel mem s ebx

-- `syscall_dispatcher` has an address.
pub syscall_init : ℕ → List IdtDescriptor → Option (List IdtDescriptor)
syscall_init dispatcher idt = setvect idt 0x80 dispatcher ring3

-- System call 0 puts the string at ebx on the screen; a positive number does nothing; a negative one
-- goes before the table. The string is not at address 0, and is shorter than the fuel.
pub syscall_dispatcher_lem :
    (fuel : ℕ) (mem : Memory) (eax ebx : ℕ) (s : Screen) (text : List ℕ)
    → eax < 2 ^ 32
    → 0 < ebx
    → IsString mem ebx text
    → length text < fuel
    → syscall_dispatcher fuel mem eax ebx s
      ≡ (if eax == 0 then some (kernel_puts s text) else if ltb eax (2 ^ 31) then some s else none)
unfolding syscall_dispatcher puts_at
syscall_dispatcher_lem fuel mem zero ebx s text b nz t l =
    let there : (ebx == 0) ≡ false = ground arith in
    rw (there, read_string_lem fuel mem ebx text t l) refl
syscall_dispatcher_lem fuel mem (suc n) ebx s text b nz t l = ground arith
