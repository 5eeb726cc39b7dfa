-- ===== src/Tests/PageTests.antt =====
-- The pages of the heap and of a process, and the memory after the start.
use sea_star_os.Base.{
  ℕ, ◌*◌, ◌/◌, ◌^◌, ◌<◌, ◌≡◌, refl, ◌⊎◌, inl, inr, some, arith, ◌==◌, if◌then◌else◌,
}
use sea_star_os.Kernel.Pmm.{Pmm, block_used}
use sea_star_os.Kernel.Vmm.{Vm, vmm_get_physical_addr}
use sea_star_os.Kernel.Vmm.Mapping.{IsDirectory}
use sea_star_os.Kernel.HeapPages.{find_free_contiguous_pages}
use sea_star_os.Kernel.HeapPages.FirstFit.{IsFirstFit, IsRun}
use sea_star_os.Kernel.HeapPages.Search.{IsFree, find_free_contiguous_pages-IsFirstFit}
use sea_star_os.Kernel.Boot.{MemoryMap, set_up_memory}
use sea_star_os.Kernel.Boot.Reserved.{set_up_memory_reserved, set_up_memory_available}
use sea_star_os.Kernel.Task.{map_kernel_space}
use sea_star_os.Kernel.Task.KernelSpace.{space_entry, map_kernel_space_lem}

abbrev pool : Pmm
pool = record { memory_size = 256; used_blocks = 63; max_blocks = 64; memory_map = λ i. 0 }

-- The table of 0xD0000000 is at 0x20000, and its first page is present.
abbrev heap : Vm
heap = record {
  pmm = pool;
  mem = λ a. if a == 0x10D00 then 0x20003 else if a == 0x20000 then 0x7003 else 0;
}

heap-IsRun : IsRun (IsFree heap 0x10000) 2 0xD0001
unfolding vmm_get_physical_addr
heap-IsRun q l m =
    let either : (q ≡ 0xD0001) ⊎ (q ≡ 0xD0002) = omega (arith, l, m) in
    elim either [ inl e ↦ rw e refl | inr e ↦ rw e refl ]

find_free_contiguous_pages-IsFirstFit_example :
    (b : ℕ) × (find_free_contiguous_pages 1 heap.mem 0x10000 0xD0000000 2 ≡ some (b * 4096))
    × IsFirstFit (IsFree heap 0x10000) 0xD0000 2 b
find_free_contiguous_pages-IsFirstFit_example =
    find_free_contiguous_pages-IsFirstFit heap 0x10000 0xD0000 2 1 0xD0001 (omega arith) refl
      (omega arith) heap-IsRun (omega arith) (omega arith)

-- The tables of the first 4 MB and of the kernel are at 0x20000 and 0x30000.
abbrev kernel : Vm
kernel = record {
  pmm = pool;
  mem = λ a. if a == 0x10000 then 0x20003 else if a == 0x10C00 then 0x30003 else 0;
}

kernel-IsDirectory : IsDirectory kernel.mem 0x10000
kernel-IsDirectory = record {
  aligned = refl;
  words = λ v h. ground arith;
  apart = λ v h ne. ground arith;
  distinct = λ v w h k ne e. ground arith;
}

map_kernel_space_lem_example :
    (vm : Vm) × (map_kernel_space 1 kernel 0x10000 ≡ some vm)
    × ((w : ℕ)
        → w < 2 ^ 32
        → vmm_get_physical_addr vm 0x10000 w
          ≡ space_entry 0x10000 (w / 4096) (vmm_get_physical_addr kernel 0x10000 w))
    × IsDirectory vm.mem 0x10000
    × (vm.pmm ≡ pool)
map_kernel_space_lem_example =
    map_kernel_space_lem 0 kernel 0x10000 kernel-IsDirectory (omega arith) (omega arith)
      (omega arith) (omega arith)

-- 15 MB from 0x100000 on, and the end of the map
abbrev regions : ℕ → MemoryMap
regions i =
    if i == 0
    then record { base_addr_low = 0x100000; length_low = 0xF00000; kind = 1 }
    else record { base_addr_low = 0; length_low = 0; kind = 2 }

set_up_memory_reserved_example :
    block_used (set_up_memory 0x5000 640 15360 regions (λ a. 0)) 0x103 ≡ 1
set_up_memory_reserved_example = set_up_memory_reserved 0x5000 640 15360 regions (λ a. 0) 0x103 refl

set_up_memory_available_example :
    block_used (set_up_memory 0x5000 640 15360 regions (λ a. 0)) 0x200 ≡ 0
set_up_memory_available_example =
    set_up_memory_available 0x5000 640 15360 regions (λ a. 0) 0x200 0 refl (omega arith)
      (λ j l. (ground (arith, l), λ p. ground (arith, l, p))) refl refl
