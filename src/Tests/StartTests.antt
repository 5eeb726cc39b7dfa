-- ===== src/Tests/StartTests.antt =====
-- The start of the kernel: the interrupts and the first page directory.
use sea_star_os.Base.{
  ℕ, zero, suc, update, ◌*◌, ◌^◌, ◌<◌, ◌≡◌, refl, true, bit_or, some, List, [], ◌∷◌, arith, length,
  get_elem?,
}
use sea_star_os.Arch.Gdt.{GdtDescriptor}
use sea_star_os.Arch.Idt.{IdtDescriptor, handler_descriptor}
use sea_star_os.Arch.Hal.{
  Handler, default_handler, pit_irq, syscall_dispatcher, Hal, getvect, hal_initialize, set_vectors,
  fault_vectors, device_vectors,
}
use sea_star_os.Arch.Hal.Start.{handler_of, ring_of, kernel_vectors}
use sea_star_os.Kernel.Pmm.{
  Pmm, pmm_alloc_block, pmm_alloc_blocks, pmm_get_free_block_count, mmap_find_first_free,
  mmap_find_first_free_s, first_free_from, first_free_in, first_run_from, first_run_in, run_is_free,
  mmap_test, mmap_set, set_blocks,
}
use sea_star_os.Kernel.Vmm.{vmm_get_physical_addr}
use sea_star_os.Kernel.Paging.{Paging, vmm_initialize}
use sea_star_os.Kernel.Paging.Identity.{first_entry, vmm_initialize_lem}

abbrev address : Handler → ℕ
address h = elim h as (λ _. ℕ) [
  | default_handler ↦ 0x100000
  | pit_irq ↦ 0x100100
  | syscall_dispatcher ↦ 0x100200
  | _ ↦ 0x100300
]

address-le : (h : Handler) → (0 < address h) × (address h < 2 ^ 32)
address-le h = elim h as (λ x. (0 < address x) × (address x < 2 ^ 32)) [
  | default_handler ↦ omega arith
  | pit_irq ↦ omega arith
  | syscall_dispatcher ↦ omega arith
  | _ ↦ omega arith
]

abbrev empty_interrupt : IdtDescriptor
empty_interrupt = record { base_lo = 0; sel = 0; reserved = 0; flags = 0; base_hi = 0 }

abbrev interrupts : ℕ → List IdtDescriptor
interrupts zero = []
interrupts (suc n) = empty_interrupt ∷ interrupts n

length-interrupts : (n : ℕ) → length (interrupts n) ≡ n
length-interrupts zero = refl
length-interrupts (suc n) = omega (arith, length-interrupts n)

abbrev empty_segment : GdtDescriptor
empty_segment = record { limit = 0; base_lo = 0; base_mid = 0; flags = 0; gran = 0; base_hi = 0 }

abbrev hal : Hal
hal = record {
  gdt =
      empty_segment ∷ empty_segment ∷ empty_segment ∷ empty_segment ∷ empty_segment ∷ empty_segment
      ∷ [];
  idt = interrupts 256;
  pit = record { pit_ticks = 0; pit_isinit = 0 };
  ports = record { input = λ port. []; out = [] };
}

kernel_vectors_example :
    (h' : Hal) × (hal_initialize address hal ≡ some h')
    × ((idt1 : List IdtDescriptor) × (set_vectors address fault_vectors h'.idt ≡ some idt1)
        × ((idt2 : List IdtDescriptor) × (set_vectors address (device_vectors true) idt1
              ≡ some idt2)
            × ((n : ℕ)
                → n < 256
                → (getvect idt2 n ≡ some (address (handler_of true n)))
                  × (get_elem? idt2 n
                      ≡ some (
                          handler_descriptor
                            (bit_or 0x8E (ring_of n))
                            0x8
                            (address (handler_of true n)))))))
kernel_vectors_example =
    kernel_vectors address (λ h. (address-le h).0) true hal empty_segment empty_segment
      empty_segment empty_segment empty_segment empty_segment refl (length-interrupts 256)
      (λ h. (address-le h).1)

-- Block 0 is in use, and blocks 1 and 2 are free.
abbrev paging : Paging
paging = record {
  vm = record {
    pmm = record { memory_size = 256; used_blocks = 1; max_blocks = 64; memory_map = λ i. 1 };
    mem = λ a. 0;
  };
  cur_directory = 0;
  cur_pdbr = 0;
  pdbr = 0;
  enabled = 0;
}

abbrev pmm1 : Pmm
pmm1 = (pmm_alloc_block paging.vm.pmm).1

abbrev pmm2 : Pmm
pmm2 = (pmm_alloc_block pmm1).1

abbrev pmm3 : Pmm
pmm3 = record (set_blocks 3 pmm2 3) { used_blocks = 6 }

first_table : pmm_alloc_block paging.vm.pmm ≡ (1 * 4096, pmm1)
unfolding pmm_alloc_block pmm_get_free_block_count mmap_find_first_free first_free_from
    first_free_in
first_table = refl

second_table : pmm_alloc_block pmm1 ≡ (2 * 4096, pmm2)
unfolding pmm_alloc_block pmm_get_free_block_count mmap_find_first_free first_free_from
    first_free_in mmap_set update
second_table = refl

directory : pmm_alloc_blocks pmm2 3 ≡ some (3 * 4096, pmm3)
unfolding pmm_alloc_blocks pmm_alloc_block pmm_get_free_block_count mmap_find_first_free
    mmap_find_first_free_s first_free_from first_free_in first_run_from first_run_in run_is_free
    mmap_test mmap_set set_blocks update
directory = refl

vmm_initialize_lem_example :
    (p : Paging) × (vmm_initialize paging ≡ some (1, p))
    × (p.enabled ≡ 1)
    × (p.pdbr ≡ 3 * 4096)
    × (p.cur_directory ≡ 3 * 4096)
    × ((w : ℕ) → w < 2 ^ 32 → vmm_get_physical_addr p.vm (3 * 4096) w ≡ first_entry w)
vmm_initialize_lem_example =
    vmm_initialize_lem paging 1 2 3 pmm1 pmm2 pmm3 first_table second_table directory (omega arith)
      (omega arith) (omega arith) (omega arith) (omega arith) (omega arith) (omega arith)
      (omega arith)
