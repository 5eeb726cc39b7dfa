-- ===== src/Kernel/Task.antt =====
-- Kernel/task.c: the kernel's pages in the address space of a process.
pub mod Ranges
pub mod KernelSpace
pub mod Process
use sea_star_os.Base.{
  ℕ, zero, suc, ◌+◌, ◌-◌, ◌*◌, ◌/◌, ◌%◌, ◌^◌, ◌≤◌, ◌<◌, min, max, bit_and, bit_or, ◌≡◌, refl, sym,
  ap, ◌∙◌, ◌≢◌, ◌↔◌, ◌⊎◌, inl, inr, Bool, true, false, not, ◌&&◌, ◌||◌, Option, none, some, List,
  [], ◌∷◌, ◌++◌, map, arith, ltb, leb, ◌==◌, if◌then◌else◌, ==_iff, Bool-cases, Option-cases, u8,
  u16, u32, sub32, not32, ◌<<<◌, ◌>>>◌, length, get_elem?, get_or, set, length-append, length-set,
  get_elem?-set_self, get_elem?-set_ne, get_elem?-past, and_then, update, update_lem, test_bit,
  test_bit-le, test_bit-or, test_bit-and, test_bit-zero, test_bit-pow, test_bit-complement,
  word_ext, bit_and-zero, bit_and-pow, bit_and-lt, bit_or-lt, pow-lt, test_bit_of_clear,
  test_bit_of_set, bit_or-disjoint, test_bit-high, test_bit-low, bit_and-u8, bit_and-u10,
  bit_and-u12, bit_and-one, bit_and-u16, test_bit-shifted, test_bit_of_lt, ℤ, pos, negsuc, sub_ℕ,
  all_below, all_below_sound,
}
use sea_star_os.Kernel.Vmm.{Vm, page_size, vmm_map_physical_addr}

-- a loop that maps `left` pages, from page `i` of the range on
pub map_range : ℕ → ℕ → ℕ → Vm → ℕ → ℕ → ℕ → ℕ → Option Vm
map_range zero fuel i vm dir virtual physical flags = some vm
map_range (suc left) fuel i vm dir virtual physical flags =
    and_then
      (vmm_map_physical_addr fuel vm dir (u32 (virtual + i * page_size))
        (u32 (physical + i * page_size)) flags)
      λ vm'. map_range left fuel (i + 1) vm' dir virtual physical flags

-- the flags are present and writable
pub map_kernel_space : ℕ → Vm → ℕ → Option Vm
map_kernel_space fuel vm dir = and_then (vmm_map_physical_addr fuel vm dir 0x8000 0x8000 3) λ vm1.
    and_then (vmm_map_physical_addr fuel vm1 dir 0x9000 0x9000 3) λ vm2.
      and_then (map_range 10 fuel 0 vm2 dir 0xc0000000 0x100000 3) λ vm3.
        and_then (map_range 31 fuel 0 vm3 dir 0xa0000 0xa0000 3)
          λ vm4. vmm_map_physical_addr fuel vm4 dir dir dir 3
