-- ===== src/Tests/VmmTests.antt =====
-- Pages, and a directory at 0x10000 whose table for the first 4 MB is at 0x20000.
use sea_star_os.Base.{
  ℕ, ◌+◌, ◌*◌, ◌/◌, ◌%◌, ◌^◌, ◌≤◌, ◌<◌, ◌≡◌, refl, ◌≢◌, inr, some, arith, ◌==◌, if◌then◌else◌,
  test_bit,
}
use sea_star_os.Kernel.Pmm.{
  Pmm, pmm_alloc_block, pmm_get_free_block_count, mmap_find_first_free, first_free_from,
  first_free_in, block_used,
}
use sea_star_os.Kernel.Pmm.Alloc.{IsAllocated, pmm_alloc_block-IsAllocated}
use sea_star_os.Kernel.Vmm.{
  Vm, pde_at, vmm_alloc_page, vmm_free_page, vmm_map_physical_addr, vmm_create_page_table,
  vmm_get_physical_addr, vmm_unmap_physical_addr,
}
use sea_star_os.Kernel.Vmm.Entries.{pt_entry_pfn, pt_entry_is_present}
use sea_star_os.Kernel.Vmm.Pages.{vmm_free_page-vmm_alloc_page}
use sea_star_os.Kernel.Vmm.Mapping.{IsDirectory, vmm_get_physical_addr-map}
use sea_star_os.Kernel.Vmm.Creation.{
  IsFresh, vmm_create_page_table_lem, vmm_get_physical_addr-create,
}
use sea_star_os.Kernel.Vmm.Unmapping.{vmm_get_physical_addr-unmap}

-- block 3 is free
abbrev pool : Pmm
pool = record {
  memory_size = 256;
  used_blocks = 63;
  max_blocks = 64;
  memory_map = λ i. if i == 0 then 0xfffffff7 else 0xffffffff;
}

-- the first slot of the directory, and no other word, is set
abbrev vm : Vm
vm = record { pmm = pool; mem = λ a. if a == 0x10000 then 0x20003 else 0 }

pool_allocation : (f : ℕ) × (f ≤ 3) × IsAllocated pool f (pmm_alloc_block pool)
unfolding pmm_get_free_block_count block_used test_bit
pool_allocation = pmm_alloc_block-IsAllocated pool 3 (omega arith) (omega arith) (omega arith) refl

pool_address : (pmm_alloc_block pool).0 ≡ 12288
unfolding pmm_alloc_block pmm_get_free_block_count mmap_find_first_free first_free_from
    first_free_in
pool_address = refl

vmm_free_page-vmm_alloc_page_example :
    let (status, page, s') = vmm_alloc_page pool 0 in
    let (page', s'') = vmm_free_page s' page in
    (status ≡ 1)
    × (pt_entry_is_present page ≡ 1)
    × (pt_entry_pfn page ≡ pool_allocation.0 * 4096)
    × (pt_entry_is_present page' ≡ 0)
    × ((g : ℕ) → block_used s'' g ≡ block_used pool g)
    × (s''.used_blocks ≡ 63)
vmm_free_page-vmm_alloc_page_example =
    vmm_free_page-vmm_alloc_page pool 0 pool_allocation.0 (omega arith) (omega arith)
      (omega (arith, pool_allocation.2.address, pool_address)) (omega (arith, pool_allocation.1))
      pool_allocation.2

vm-IsDirectory : IsDirectory vm.mem 0x10000
vm-IsDirectory = record {
  aligned = refl;
  words = λ v h. ground arith;
  apart = λ v h ne. ground arith;
  distinct = λ v w h k ne e. ground arith;
}

vmm_get_physical_addr-map_example :
    (vm' : Vm) × (vmm_map_physical_addr 1 vm 0x10000 0x5000 0x7000 3 ≡ some vm')
    × ((w : ℕ)
        → w < 2 ^ 32
        → vmm_get_physical_addr vm' 0x10000 w
          ≡ (if w / 4096 == 5 then 0x7003 else vmm_get_physical_addr vm 0x10000 w))
    × IsDirectory vm'.mem 0x10000
    × (vm'.pmm ≡ pool)
vmm_get_physical_addr-map_example =
    vmm_get_physical_addr-map 0 vm 0x10000 0x5000 0x7000 3 vm-IsDirectory (omega arith)
      (omega arith)

vmm_get_physical_addr-unmap_example :
    vmm_get_physical_addr (vmm_unmap_physical_addr vm 0x10000 0x5000) 0x10000 0x9000 ≡ 0
vmm_get_physical_addr-unmap_example =
    vmm_get_physical_addr-unmap vm 0x10000 0x5000 0x9000 vm-IsDirectory (omega arith) (omega arith)

vm-IsFresh : IsFresh vm 0x10000 0xD0000000 3
vm-IsFresh = record {
  words = λ a. ground arith;
  aligned = refl;
  missing = refl;
  given = pool_address;
  not_null = omega arith;
  in_range = omega arith;
  apart = inr (omega arith);
  mapped = inr (omega arith, omega arith, inr (omega arith));
}

vmm_create_page_table_lem_example :
    (vm' : Vm) × (vmm_create_page_table 1 vm 0x10000 0xD0000000 3 ≡ some (1, vm'))
    × (vm'.mem (pde_at 0x10000 0xD0000000) ≡ 12291)
    × (vm'.mem 12288 ≡ vm.mem 12288 % 2 ^ 24)
    × (vm'.mem 16384 ≡ vm.mem 16384 / 2 ^ 24 * 2 ^ 24)
    × ((i : ℕ) → 0 < i → i < 1024 → i ≢ 3 → vm'.mem (12288 + 4 * i) ≡ 0)
vmm_create_page_table_lem_example =
    vmm_create_page_table_lem vm 0x10000 0xD0000000 3 (omega arith) vm-IsFresh 0 (omega arith)

vmm_get_physical_addr-create_example :
    (vm' : Vm) × (vmm_map_physical_addr 2 vm 0x10000 0xD0000000 0x7000 3 ≡ some vm')
    × (vmm_get_physical_addr vm' 0x10000 0xD0000000 ≡ 0x7003)
    × (vm'.pmm ≡ (pmm_alloc_block pool).1)
vmm_get_physical_addr-create_example =
    vmm_get_physical_addr-create vm 0x10000 0xD0000000 3 (omega arith) vm-IsFresh 0 0x7000
