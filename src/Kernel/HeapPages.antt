-- ===== src/Kernel/HeapPages.antt =====
-- Kernel/liballoc_hook.c: the pages behind the heap, over the block allocator and the page tables.
--
-- `dir` is the current directory, vmm_get_directory(), and a number of pages is below 2 ^ 31. A
-- search that never returns runs out of fuel, `none`; a pointer that is NULL is 0.
pub mod Search
pub mod FirstFit
use sea_star_os.Base.{
  ℕ, zero, suc, ◌+◌, ◌-◌, ◌*◌, ◌/◌, ◌%◌, ◌^◌, ◌≤◌, ◌<◌, min, max, bit_and, bit_or, ◌≡◌, refl, sym,
  ap, ◌∙◌, ◌≢◌, ◌↔◌, ◌⊎◌, inl, inr, Bool, true, false, not, ◌&&◌, ◌||◌, Option, none, some, List,
  [], ◌∷◌, ◌++◌, map, arith, ltb, leb, ◌==◌, if◌then◌else◌, ==_iff, Bool-cases, Option-cases, u8,
  u16, u32, sub32, not32, ◌<<<◌, ◌>>>◌, length, get_elem?, get_or, set, length-append, length-set,
  get_elem?-set_self, get_elem?-set_ne, get_elem?-past, and_then, update, update_lem, test_bit,
  test_bit-le, test_bit-or, test_bit-and, test_bit-zero, test_bit-pow, test_bit-complement,
  word_ext, bit_and-zero, bit_and-pow, bit_and-lt, bit_or-lt, pow-lt, test_bit_of_clear,
  test_bit_of_set, bit_or-disjoint, test_bit-high, test_bit-low, bit_and-u8, bit_and-u12,
  bit_and-one, bit_and-u16, test_bit-shifted, test_bit_of_lt, ℤ, pos, negsuc, sub_ℕ, all_below,
  all_below_sound,
}
use sea_star_os.Kernel.Pmm.{Pmm, pmm_alloc_block}
use sea_star_os.Kernel.Vmm.{Vm, pde_at, vmm_map_physical_addr, vmm_unmap_physical_addr}

abbrev pub heap_start_addr : ℕ
heap_start_addr = 0xD0000000

-- PAGE_TABLE_INDEX of vmm.h
unfoldable pub page_table_index : ℕ → ℕ
page_table_index x = bit_and (x >>> 12) 0x3ff

-- The search returns an address, or goes on with `cfreepage` and `firstFreePageAddr`.
pub data Progress : Type 0 where
  found : (first : ℕ) → Progress
  searching : (free first : ℕ) → Progress

-- the loop over the pages of one table, from `y` on
pub search_table : ℕ → (ℕ → ℕ) → ℕ → ℕ → ℕ → ℕ → ℕ → Progress
search_table zero mem table y pages free first = searching free first
search_table (suc left) mem table y pages free first =
    let used = not (bit_and (mem (table + 4 * page_table_index y)) 0x1 == 0) in
    let free' = if used then 0 else free + 1 in
    let first' = if used then u32 (y + 4096) else first in
    let rest = search_table left mem table (u32 (y + 4096)) pages free' first' in
    if not used && leb pages free'
    then found first
    else if page_table_index y == 1023
    then searching free' first'
    else rest

-- the body of the loop over the page tables
pub search_page_table : (ℕ → ℕ) → ℕ → ℕ → ℕ → ℕ → ℕ → Progress
search_page_table mem dir x pages free first =
    let pde = mem (pde_at dir x) in
    if pde == 0
    then if leb pages (free + 1024) then found first else searching (free + 1024) first
    else search_table 1024 mem (bit_and pde 0xFFFFF000) x pages free first

-- the loop, from `x` on
pub search_directory : ℕ → (ℕ → ℕ) → ℕ → ℕ → ℕ → ℕ → ℕ → Option ℕ
search_directory zero mem dir x pages free first = none
search_directory (suc fuel) mem dir x pages free first =
    elim (search_page_table mem dir x pages free first) [
      | found a ↦ some a
      | searching free' first' ↦
          search_directory fuel mem dir (u32 (x + 4096 * 1024)) pages free' first'
    ]

pub find_free_contiguous_pages : ℕ → (ℕ → ℕ) → ℕ → ℕ → ℕ → Option ℕ
find_free_contiguous_pages fuel mem dir start pages =
    search_directory fuel mem dir start pages 0 start

-- the loop of liballoc_alloc; on a failure the pages mapped so far stay mapped
unfoldable pub map_pages : ℕ → ℕ → ℕ → Vm → ℕ → ℕ → Option (ℕ × Vm)
map_pages zero fuel i vm dir virt_addr = some (virt_addr, vm)
map_pages (suc left) fuel i vm dir virt_addr =
    let (p, pmm) = pmm_alloc_block vm.pmm in
    let mapped =
      vmm_map_physical_addr fuel (record vm { pmm = pmm }) dir (u32 (virt_addr + i * 0x1000)) p
        (bit_or 1 2) in
    if p == 0
    then some (0, record vm { pmm = pmm })
    else and_then mapped λ vm'. map_pages left fuel (i + 1) vm' dir virt_addr

unfoldable pub liballoc_alloc : ℕ → ℕ → Vm → ℕ → ℕ → Option (ℕ × Vm)
liballoc_alloc search_fuel fuel vm dir pages =
    and_then (find_free_contiguous_pages search_fuel vm.mem dir heap_start_addr pages) λ virt_addr.
      if virt_addr == 0xFFFFFFFF then some (0, vm) else map_pages pages fuel 0 vm dir virt_addr

-- the loop of liballoc_free, which gives no block back
unfoldable pub unmap_pages : ℕ → ℕ → Vm → ℕ → ℕ → Vm
unmap_pages zero i vm dir virt_addr = vm
unmap_pages (suc left) i vm dir virt_addr =
    unmap_pages left (i + 1) (vmm_unmap_physical_addr vm dir (u32 (virt_addr + i * 0x1000))) dir
      virt_addr

unfoldable pub liballoc_free : Vm → ℕ → ℕ → ℕ → ℕ × Vm
liballoc_free vm dir virt_addr pages = (0, unmap_pages pages 0 vm dir virt_addr)
