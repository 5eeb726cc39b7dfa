-- ===== src/Kernel/Boot.antt =====
-- Kernel/main.c: how kmain hands the memory to the block allocator.
--
-- `kernel_size` is the size behind the address 0x100000, and `memory` what stands at the bitmap's
-- place behind the kernel.
pub mod Reserved
use sea_star_os.Base.{
  ℕ, zero, suc, ◌+◌, ◌-◌, ◌*◌, ◌/◌, ◌%◌, ◌^◌, ◌≤◌, ◌<◌, min, max, bit_and, bit_or, ◌≡◌, refl, sym,
  ap, ◌∙◌, ◌≢◌, ◌↔◌, ◌⊎◌, inl, inr, Bool, true, false, not, ◌&&◌, ◌||◌, Option, none, some, List,
  [], ◌∷◌, ◌++◌, map, arith, ltb, leb, ◌==◌, if◌then◌else◌, ==_iff, Bool-cases, Option-cases, u8,
  u16, u32, sub32, not32, ◌<<<◌, ◌>>>◌, length, get_elem?, get_or, set, length-append, length-set,
  get_elem?-set_self, get_elem?-set_ne, get_elem?-past, and_then, update, update_lem, test_bit,
  test_bit-le, test_bit-or, test_bit-and, test_bit-zero, test_bit-pow, test_bit-complement,
  word_ext, bit_and-zero, bit_and-pow, bit_and-lt, bit_or-lt, pow-lt, test_bit_of_clear,
  test_bit_of_set, bit_or-disjoint, test_bit-high, test_bit-low, bit_and-u8, bit_and-u10,
  bit_and-u12, bit_and-one, bit_and-u16, test_bit-shifted, test_bit_of_lt, ℤ, pos, negsuc, sub_ℕ,
  all_below, all_below_sound,
}
use sea_star_os.Kernel.Pmm.{Pmm, pmm_init, pmm_init_region, pmm_deinit_region}

-- memory_map_t of bootinfo.h, the fields that are read
pub record MemoryMap : Type 0 where
  pub base_addr_low : ℕ
  pub length_low : ℕ
  pub kind : ℕ

-- an available region is given to the allocator
pub take_region : MemoryMap → Pmm → Pmm
take_region r s = if r.kind == 1 then pmm_init_region s r.base_addr_low r.length_low else s

-- the loop over the memory map, with `left` rounds to go
pub init_regions : ℕ → (ℕ → MemoryMap) → ℕ → Pmm → Pmm
init_regions zero region i s = s
init_regions (suc left) region i s =
    let r = region i in
    let rest = init_regions left region (i + 1) (take_region r s) in
    if ltb 4 r.kind then s else if ltb 0 i && r.base_addr_low == 0 then s else rest

pub set_up_memory : ℕ → ℕ → ℕ → (ℕ → MemoryMap) → (ℕ → ℕ) → Pmm
set_up_memory kernel_size mem_lower mem_upper region memory =
    let s = pmm_init (u32 (mem_lower + mem_upper)) memory in
    let s' = pmm_deinit_region (init_regions 10 region 0 s) 0x100000 kernel_size in
    pmm_deinit_region s' 0x0 0x10000
