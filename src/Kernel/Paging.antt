-- ===== src/Kernel/Paging.antt =====
-- vmm_initialize and vmm_switch_pdirectory of Kernel/vmm.c: the first page directory.
pub mod Filling
pub mod Identity
use sea_star_os.Base.{
  ℕ, zero, suc, ◌+◌, ◌-◌, ◌*◌, ◌/◌, ◌%◌, ◌^◌, ◌≤◌, ◌<◌, min, max, bit_and, bit_or, ◌≡◌, refl, sym,
  ap, ◌∙◌, ◌≢◌, ◌↔◌, ◌⊎◌, inl, inr, Bool, true, false, not, ◌&&◌, ◌||◌, Option, none, some, List,
  [], ◌∷◌, ◌++◌, map, arith, ltb, leb, ◌==◌, if◌then◌else◌, ==_iff, Bool-cases, Option-cases, u8,
  u16, u32, sub32, not32, ◌<<<◌, ◌>>>◌, length, get_elem?, get_or, set, length-append, length-set,
  get_elem?-set_self, get_elem?-set_ne, get_elem?-past, and_then, update, update_lem, test_bit,
  test_bit-le, test_bit-or, test_bit-and, test_bit-zero, test_bit-pow, test_bit-complement,
  word_ext, bit_and-zero, bit_and-pow, bit_and-lt, bit_or-lt, pow-lt, test_bit_of_clear,
  test_bit_of_set, bit_or-disjoint, bit_or_comm, test_bit-high, test_bit-low, bit_and-u8,
  bit_and-u10, bit_and-u12, bit_and-one, bit_and-u16, test_bit-shifted, test_bit_of_lt, ℤ, pos,
  negsuc, sub_ℕ, all_below, all_below_sound,
}
use sea_star_os.Kernel.Pmm.{pmm_alloc_block, pmm_alloc_blocks}
use sea_star_os.Kernel.Vmm.{Vm, page_size, memset_zero}
use sea_star_os.Kernel.Vmm.Entries.{
  pte_present, pt_entry_add_attrib, pt_entry_set_frame, pd_entry_add_attrib, pd_entry_set_frame,
}
use sea_star_os.Kernel.HeapPages.{page_table_index}

-- `_cur_directory` and `_cur_pdbr`; the register of the page directory, and whether paging is on
pub record Paging : Type 0 where
  pub vm : Vm
  pub cur_directory : ℕ
  pub cur_pdbr : ℕ
  pub pdbr : ℕ
  pub enabled : ℕ

-- PAGE_DIRECTORY_INDEX of vmm.h
pub page_directory_index : ℕ → ℕ
page_directory_index x = bit_and (x >>> 22) 0x3ff

-- vmm_ptable_clear and vmm_pdirectory_clear
pub vmm_ptable_clear : (ℕ → ℕ) → ℕ → ℕ → ℕ
vmm_ptable_clear mem p a = if p == 0 then mem a else memset_zero mem p page_size a

pub vmm_pdirectory_clear : (ℕ → ℕ) → ℕ → ℕ → ℕ
vmm_pdirectory_clear mem dir a = if dir == 0 then mem a else memset_zero mem dir page_size a

-- the body of the two loops: a page that is present
pub present_page : ℕ → ℕ
present_page frame = pt_entry_set_frame (pt_entry_add_attrib 0 pte_present) frame

-- the two loops, with `left` rounds to go
pub fill_table : ℕ → ℕ → ℕ → ℕ → (ℕ → ℕ) → ℕ → ℕ
fill_table zero frame virtual table mem = mem
fill_table (suc left) frame virtual table mem =
    fill_table left (frame + 4096) (virtual + 4096) table
      (update mem (table + 4 * page_table_index virtual) (present_page frame))

-- the entry at `at`: present and writable, with the frame of a table
pub point_to_table : (ℕ → ℕ) → ℕ → ℕ → ℕ → ℕ
point_to_table mem at table =
    update mem at
      (pd_entry_set_frame (pd_entry_add_attrib (pd_entry_add_attrib (mem at) 1) 2) table)

-- The register gets the directory that `_cur_pdbr` names, whatever directory is given.
pub vmm_switch_pdirectory : Paging → ℕ → ℕ × Paging
vmm_switch_pdirectory p dir =
    if dir == 0 then (0, p) else (1, record p { cur_directory = dir; pdbr = p.cur_pdbr })

-- the directory, from the two tables
pub build_directory : (ℕ → ℕ) → ℕ → ℕ → ℕ → ℕ → ℕ
build_directory mem dir table table2 =
    point_to_table
      (point_to_table (vmm_pdirectory_clear mem dir) (dir + 4 * page_directory_index 0xc0000000)
        table)
      (dir + 4 * page_directory_index 0) table2

-- the two tables, cleared and filled
pub build_tables : (ℕ → ℕ) → ℕ → ℕ → ℕ → ℕ
build_tables mem table table2 =
    fill_table 1024 0 0xc0000000 table
      (fill_table 1024 0 0 table2 (vmm_ptable_clear (vmm_ptable_clear mem table) table2))

-- `none` where the search for three blocks is undefined
pub vmm_initialize : Paging → Option (ℕ × Paging)
vmm_initialize p =
    let (table, pmm1) = pmm_alloc_block p.vm.pmm in
    let (table2, pmm2) = pmm_alloc_block pmm1 in
    let mem = build_tables p.vm.mem table table2 in
    let built = and_then (pmm_alloc_blocks pmm2 3) λ (dir, pmm3).
      let ready : Vm = record { pmm = pmm3; mem = build_directory mem dir table table2 } in
      let (switched, p') = vmm_switch_pdirectory (record p { vm = ready; cur_pdbr = dir }) dir in
      if dir == 0
      then some (0, record p { vm = record { pmm = pmm3; mem = mem } })
      else if switched == 0
      then some (0, p')
      else some (1, record p' { enabled = 1 }) in
    if table == 0
    then some (0, record p { vm = record p.vm { pmm = pmm1 } })
    else if table2 == 0
    then some (0, record p { vm = record p.vm { pmm = pmm2 } })
    else built
