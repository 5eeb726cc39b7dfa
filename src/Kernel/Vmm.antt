-- ===== src/Kernel/Vmm.antt =====
-- Kernel/vmm.c: pages, page tables and the mapping of addresses, over the block allocator.
--
-- Memory is read and written as 32-bit words at byte addresses that are multiples of 4. It is flat:
-- an address in a page table is used as the address of memory, as in the kernel, which maps these
-- blocks onto themselves. The bitmap of the allocator lies outside of it.
pub mod Entries
pub mod EntryLaws
pub mod Pages
pub mod Mapping
pub mod Creation
pub mod Unmapping
use sea_star_os.Base.{
  ℕ, zero, suc, ◌+◌, ◌-◌, ◌*◌, ◌/◌, ◌%◌, ◌^◌, ◌≤◌, ◌<◌, min, max, bit_and, bit_or, ◌≡◌, refl, sym,
  ap, ◌∙◌, ◌≢◌, ◌↔◌, ◌⊎◌, inl, inr, Bool, true, false, not, ◌&&◌, ◌||◌, Option, none, some, List,
  [], ◌∷◌, ◌++◌, map, arith, ltb, leb, ◌==◌, if◌then◌else◌, ==_iff, Bool-cases, Option-cases, u8,
  u16, u32, sub32, not32, ◌<<<◌, ◌>>>◌, length, get_elem?, get_or, set, length-append, length-set,
  get_elem?-set_self, get_elem?-set_ne, update, update_lem, test_bit, test_bit-le, test_bit-or,
  test_bit-and, test_bit-zero, test_bit-pow, test_bit-complement, word_ext, bit_and-zero,
  bit_and-pow, bit_and-lt, bit_or-lt, pow-lt, test_bit_of_clear, test_bit_of_set, test_bit-shifted,
  test_bit_of_lt, all_below, all_below_sound,
}
use sea_star_os.Kernel.Pmm.{Pmm, pmm_alloc_block, pmm_free_block}
use Entries.{
  pt_entry_set_frame, pt_entry_add_attrib, pt_entry_del_attrib, pt_entry_pfn, pte_present,
}

pub record Vm : Type 0 where
  pub pmm : Pmm
  pub mem : ℕ → ℕ

abbrev pub page_size : ℕ
page_size = 4096

unfoldable pub vmm_ptable_virt_to_index : ℕ → ℕ
vmm_ptable_virt_to_index addr = if leb 0x400000 addr then 0 else addr / page_size

-- The bound 0x100000000 is a 64-bit constant, above every 32-bit address.
unfoldable pub vmm_pdirectory_virt_to_index : ℕ → ℕ
vmm_pdirectory_virt_to_index addr = if leb 0x100000000 addr then 0 else addr / page_size

-- `&p->m_entries[...]`, and NULL for NULL; the directory's lookup uses the page table's index.
unfoldable pub vmm_ptable_lookup_entry : ℕ → ℕ → ℕ
vmm_ptable_lookup_entry p addr = if p == 0 then 0 else p + 4 * vmm_ptable_virt_to_index addr

unfoldable pub vmm_pdirectory_lookup_entry : ℕ → ℕ → ℕ
vmm_pdirectory_lookup_entry p addr = if p == 0 then 0 else p + 4 * vmm_ptable_virt_to_index addr

-- The entry goes in and out by its pointer: the status, the entry and the allocator are returned.
unfoldable pub vmm_alloc_page : Pmm → ℕ → ℕ × ℕ × Pmm
vmm_alloc_page s e =
    let (p, s') = pmm_alloc_block s in
    if p == 0 then (0, e, s') else (1, pt_entry_add_attrib (pt_entry_set_frame e p) pte_present, s')

unfoldable pub vmm_free_page : Pmm → ℕ → ℕ × Pmm
vmm_free_page s e =
    let p = pt_entry_pfn e in
    let s' = if p == 0 then s else pmm_free_block s p in (pt_entry_del_attrib e pte_present, s')

-- `memset(start, 0, n)`, seen at the word at `a`: each of its four bytes is cleared or kept.
abbrev cleared_byte : ℕ → ℕ → ℕ → ℕ → ℕ → ℕ
cleared_byte start n a w k =
    if leb start (a + k) && ltb (a + k) (start + n) then 0 else w / 256 ^ k % 256

pub memset_zero : (ℕ → ℕ) → ℕ → ℕ → ℕ → ℕ
memset_zero mem start n a =
    cleared_byte start n a (mem a) 0
    + cleared_byte start n a (mem a) 1 * 256
    + cleared_byte start n a (mem a) 2 * 65536
    + cleared_byte start n a (mem a) 3 * 16777216

-- the address of `pagedir[virtual >> 22]`
abbrev pub pde_at : ℕ → ℕ → ℕ
pde_at dir virtual = dir + 4 * (virtual >>> 22)

-- the address of `((uint32_t*)(pde & ~0xfff))[virtual << 10 >> 10 >> 12]`
abbrev pub pte_at : ℕ → ℕ → ℕ
pte_at pde virtual = bit_and pde (not32 0xfff) + 4 * (u32 (virtual <<< 10) >>> 10 >>> 12)

-- vmm_createPageTable, given the vmm_mapPhysicalAddr that it calls
pub create_page_table : (Vm → ℕ → ℕ → ℕ → ℕ → Option Vm) → Vm → ℕ → ℕ → ℕ → Option (ℕ × Vm)
create_page_table map_addr vm dir virtual flags =
    if vm.mem (pde_at dir virtual) == 0
    then (let (block, pmm) = pmm_alloc_block vm.pmm in
        let pde = bit_or block flags in
        let mem = memset_zero (update vm.mem (pde_at dir virtual) pde) pde page_size in
        if block == 0
        then some (0, record vm { pmm = pmm })
        else elim (map_addr (record { pmm = pmm; mem = mem }) dir block block flags) [
          | none ↦ none
          | some vm' ↦ some (1, vm')
        ])
    else some (1, vm)

-- The two functions call each other; `none` where the fuel runs out. The status of the creation
-- is ignored, and a missing table is then written at address 0.
pub vmm_map_physical_addr : ℕ → Vm → ℕ → ℕ → ℕ → ℕ → Option Vm
vmm_map_physical_addr zero vm dir virtual physical flags = none
vmm_map_physical_addr (suc fuel) vm dir virtual physical flags =
    let created = create_page_table (vmm_map_physical_addr fuel) vm dir virtual flags in
    let ready = if vm.mem (pde_at dir virtual) == 0 then created else some (1, vm) in
    elim ready [
      | none ↦ none
      | some (status, vm') ↦
          let at = pte_at (vm'.mem (pde_at dir virtual)) virtual in
          some (record vm' { mem = update vm'.mem at (bit_or physical flags) })
    ]

pub vmm_create_page_table : ℕ → Vm → ℕ → ℕ → ℕ → Option (ℕ × Vm)
vmm_create_page_table fuel = create_page_table (vmm_map_physical_addr fuel)

pub vmm_unmap_page_table : Vm → ℕ → ℕ → Vm
vmm_unmap_page_table vm dir virtual =
    let pde = vm.mem (pde_at dir virtual) in
    if pde == 0 then vm else record {
      pmm = pmm_free_block vm.pmm (bit_and pde 0x7FFFF000);
      mem = update vm.mem (pde_at dir virtual) 0;
    }

pub vmm_unmap_physical_addr : Vm → ℕ → ℕ → Vm
vmm_unmap_physical_addr vm dir virtual =
    if vm.mem (pde_at dir virtual) == 0 then vm else vmm_unmap_page_table vm dir virtual

unfoldable pub vmm_create_address_space : Vm → ℕ × Vm
vmm_create_address_space vm =
    let (dir, pmm) = pmm_alloc_block vm.pmm in
    if dir == 0
    then (0, record vm { pmm = pmm })
    else (dir, record { pmm = pmm; mem = memset_zero vm.mem dir page_size })

unfoldable pub vmm_get_physical_addr : Vm → ℕ → ℕ → ℕ
vmm_get_physical_addr vm dir virtual =
    let pde = vm.mem (pde_at dir virtual) in if pde == 0 then 0 else vm.mem (pte_at pde virtual)
