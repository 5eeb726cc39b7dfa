-- ===== src/Kernel/Paging/Identity.antt =====
-- What the first page directory maps.
use sea_star_os.Base.{
  ℕ, ◌+◌, ◌*◌, ◌/◌, ◌%◌, ◌^◌, ◌≤◌, ◌<◌, ◌≡◌, refl, ap, ◌∙◌, ◌≢◌, ◌⊎◌, inl, inr, false, ◌||◌, some,
  arith, ◌==◌, if◌then◌else◌, Bool-cases, update_lem,
}
use sea_star_os.Kernel.Pmm.{Pmm, pmm_alloc_block, pmm_alloc_blocks}
use sea_star_os.Kernel.Vmm.{Vm, pde_at, pte_at, vmm_get_physical_addr}
use sea_star_os.Kernel.Vmm.Entries.{pd_entry_add_attrib, pd_entry_set_frame}
use sea_star_os.Kernel.Vmm.Mapping.{page_of_entry}
use sea_star_os.Kernel.Vmm.Creation.{memset_zero_inside, memset_zero_outside}
use sea_star_os.Kernel.Paging.{
  Paging, page_directory_index, vmm_ptable_clear, vmm_pdirectory_clear, point_to_table,
  vmm_switch_pdirectory, build_directory, build_tables, vmm_initialize,
}
use sea_star_os.Kernel.Paging.Filling.{entry_of_page, fill_table_lem}

-- What is read for address `w`: the first 4 MB, from 0 and from 3 GB on, with present pages.
abbrev pub first_entry : ℕ → ℕ
first_entry w = if w / 2 ^ 22 == 0 || w / 2 ^ 22 == 768 then w % 2 ^ 22 / 4096 * 4096 + 1 else 0

-- the entry `k` of a table that has been filled
module _ (mem : ℕ → ℕ) (t t2 k : ℕ) (b : k < 1024) (ne : t ≢ t2) where
  build_tables-first : build_tables mem (t * 4096) (t2 * 4096) (t * 4096 + 4 * k) ≡ k * 4096 + 1
  unfolding build_tables
  build_tables-first =
      fill_table_lem 1024 0 0xc0000000 (t * 4096) _ (t * 4096 + 4 * k) refl (omega arith)
      ∙ ground arith

  build_tables-second : build_tables mem (t * 4096) (t2 * 4096) (t2 * 4096 + 4 * k) ≡ k * 4096 + 1
  unfolding build_tables
  build_tables-second =
      fill_table_lem 1024 0 0xc0000000 (t * 4096) _ (t2 * 4096 + 4 * k) refl (omega arith)
      ∙ ground (
        arith,
        fill_table_lem 1024 0 0 (t2 * 4096)
            (vmm_ptable_clear (vmm_ptable_clear mem (t * 4096)) (t2 * 4096)) (t2 * 4096 + 4 * k)
            refl (omega arith),
      )

point_to_table_lem :
    (mem : ℕ → ℕ) (at q a : ℕ)
    → mem at ≡ 0
    → q < 2 ^ 20
    → point_to_table mem at (q * 4096) a ≡ (if a == at then q * 4096 + 3 else mem a)
unfolding point_to_table pd_entry_set_frame pd_entry_add_attrib
point_to_table_lem mem at q a z b =
    rw (z, entry_of_page q 3 b (omega arith)) (update_lem mem at (q * 4096 + 3) a)

pte_at_lem :
    (q w : ℕ)
    → q < 2 ^ 20
    → w < 2 ^ 32
    → pte_at (q * 4096 + 3) w ≡ q * 4096 + 4 * (w % 2 ^ 22 / 4096)
pte_at_lem q w b h = rw (page_of_entry (q * 4096 + 3) (omega arith)) (omega arith)

-- the directory in page `d`, over tables in the pages `t` and `t2`
module _ (mem : ℕ → ℕ) (d t t2 : ℕ) (pos : 0 < d) (bt : t < 2 ^ 20) (bt2 : t2 < 2 ^ 20) where
  cleared_directory : ℕ → ℕ
  cleared_directory = vmm_pdirectory_clear mem (d * 4096)

  cleared_slot : (k : ℕ) → k < 1024 → cleared_directory (d * 4096 + 4 * k) ≡ 0
  unfolding cleared_directory vmm_pdirectory_clear
  cleared_slot k b =
      let some_page : (d * 4096 == 0) ≡ false = ground arith in
      rw some_page
        (memset_zero_inside mem (d * 4096) 4096 (d * 4096 + 4 * k) (omega arith) (omega arith))

  cleared_outside :
      (a : ℕ)
      → mem a < 2 ^ 32
      → (a + 4 ≤ d * 4096) ⊎ (d * 4096 + 4096 ≤ a)
      → cleared_directory a ≡ mem a
  unfolding cleared_directory vmm_pdirectory_clear
  cleared_outside a w o =
      let some_page : (d * 4096 == 0) ≡ false = ground arith in
      rw some_page (memset_zero_outside mem (d * 4096) 4096 a w o)

  -- both slots, on what has been cleared
  build_directory-slots :
      (a : ℕ)
      → build_directory mem (d * 4096) (t * 4096) (t2 * 4096) a ≡ (
          if a == d * 4096 + 4 * 0
          then t2 * 4096 + 3
          else if a == d * 4096 + 4 * 768
          then t * 4096 + 3
          else cleared_directory a)
  unfolding build_directory cleared_directory page_directory_index
  build_directory-slots a =
      let kernel = λ (b : ℕ).
        point_to_table_lem cleared_directory (d * 4096 + 4 * 768) t b
          (cleared_slot 768 (omega arith)) bt in
      point_to_table_lem (point_to_table cleared_directory (d * 4096 + 4 * 768) (t * 4096))
        (d * 4096 + 4 * 0) t2 a
        (kernel (d * 4096 + 4 * 0) ∙ ground (arith, cleared_slot 0 (omega arith))) bt2
      ∙ rw (kernel a) refl

  build_directory-slot :
      (k : ℕ)
      → k < 1024
      → build_directory mem (d * 4096) (t * 4096) (t2 * 4096) (d * 4096 + 4 * k)
        ≡ (if k == 0 then t2 * 4096 + 3 else if k == 768 then t * 4096 + 3 else 0)
  build_directory-slot k b =
      build_directory-slots (d * 4096 + 4 * k) ∙ ground (arith, cleared_slot k b)

  build_directory-outside :
      (a : ℕ)
      → mem a < 2 ^ 32
      → (a + 4 ≤ d * 4096) ⊎ (d * 4096 + 4096 ≤ a)
      → build_directory mem (d * 4096) (t * 4096) (t2 * 4096) a ≡ mem a
  build_directory-outside a w o = build_directory-slots a ∙ ground (arith, cleared_outside a w o)

read_table :
    (vm : Vm) (dir w q v : ℕ)
    → vm.mem (pde_at dir w) ≡ q * 4096 + 3
    → vm.mem (pte_at (q * 4096 + 3) w) ≡ v
    → vmm_get_physical_addr vm dir w ≡ v
unfolding vmm_get_physical_addr
read_table vm dir w q v e r =
    let present : (q * 4096 + 3 == 0) ≡ false = ground arith in rw (e, present) r

read_nothing :
    (vm : Vm) (dir w : ℕ) → vm.mem (pde_at dir w) ≡ 0 → vmm_get_physical_addr vm dir w ≡ 0
unfolding vmm_get_physical_addr
read_nothing vm dir w e = rw e refl

-- what is read through the directory
module _ (mem : ℕ → ℕ) (pmm : Pmm) (d t t2 : ℕ) (pos : 0 < d) (bt : t < 2 ^ 20) (bt2 : t2 < 2 ^ 20)
    (apart : t ≢ t2) (apart1 : t ≢ d) (apart2 : t2 ≢ d) where
  abbrev built : Vm
  built = record {
    pmm = pmm;
    mem =
        build_directory (build_tables mem (t * 4096) (t2 * 4096)) (d * 4096) (t * 4096) (t2 * 4096);
  }

  slot_of :
      (w : ℕ)
      → w < 2 ^ 32
      → built.mem (pde_at (d * 4096) w)
        ≡ (if w / 2 ^ 22 == 0 then t2 * 4096 + 3 else if w / 2 ^ 22 == 768 then t * 4096 + 3 else 0)
  slot_of w h =
      build_directory-slot (build_tables mem (t * 4096) (t2 * 4096)) d t t2 pos bt bt2 (w / 2 ^ 22)
        (omega arith)

  -- the entry of `w` in a filled table
  entry_in :
      (q w : ℕ)
      → q < 2 ^ 20
      → q ≢ d
      → w < 2 ^ 32
      → ((k : ℕ)
          → k < 1024
          → build_tables mem (t * 4096) (t2 * 4096) (q * 4096 + 4 * k) ≡ k * 4096 + 1)
      → built.mem (pte_at (q * 4096 + 3) w) ≡ w % 2 ^ 22 / 4096 * 4096 + 1
  entry_in q w b ne h filled =
      let k = w % 2 ^ 22 / 4096 in
      let entry = filled k (omega arith) in
      ap built.mem (pte_at_lem q w b h)
      ∙ build_directory-outside (build_tables mem (t * 4096) (t2 * 4096)) d t t2 pos bt bt2
          (q * 4096 + 4 * k) (omega (arith, entry)) (ground arith)
      ∙ entry

  reads_first_entry :
      (w : ℕ) → w < 2 ^ 32 → vmm_get_physical_addr built (d * 4096) w ≡ first_entry w
  reads_first_entry w h = elim (Bool-cases (w / 2 ^ 22 == 0)) [
    | inl low ↦
        read_table built (d * 4096) w t2 _ (slot_of w h ∙ rw low refl)
          (entry_in t2 w bt2 apart2 h (λ k b. build_tables-second mem t t2 k b apart))
        ∙ rw low refl
    | inr high ↦ elim (Bool-cases (w / 2 ^ 22 == 768)) [
      | inl kernel ↦
          read_table built (d * 4096) w t _ (slot_of w h ∙ rw (high, kernel) refl)
            (entry_in t w bt apart1 h (λ k b. build_tables-first mem t t2 k b apart))
          ∙ rw (high, kernel) refl
      | inr other ↦
          read_nothing built (d * 4096) w (slot_of w h ∙ rw (high, other) refl)
          ∙ rw (high, other) refl
    ]
  ]

-- vmm_initialize, given two blocks and then three for the directory, all different, ends and returns
-- 1 with paging on and the directory in the register: through it every address reads a present page
-- in the first 4 MB and in the 4 MB from 3 GB on, both of the frames from 0 on in order, and nothing
-- elsewhere.
pub vmm_initialize_lem :
    (p : Paging) (t t2 d : ℕ) (pmm1 pmm2 pmm3 : Pmm)
    → pmm_alloc_block p.vm.pmm ≡ (t * 4096, pmm1)
    → pmm_alloc_block pmm1 ≡ (t2 * 4096, pmm2)
    → pmm_alloc_blocks pmm2 3 ≡ some (d * 4096, pmm3)
    → 0 < t
    → 0 < t2
    → 0 < d
    → t < 2 ^ 20
    → t2 < 2 ^ 20
    → t ≢ t2
    → t ≢ d
    → t2 ≢ d
    → (p' : Paging) × (vmm_initialize p ≡ some (1, p'))
      × (p'.enabled ≡ 1)
      × (p'.pdbr ≡ d * 4096)
      × (p'.cur_directory ≡ d * 4096)
      × ((w : ℕ) → w < 2 ^ 32 → vmm_get_physical_addr p'.vm (d * 4096) w ≡ first_entry w)
unfolding vmm_initialize vmm_switch_pdirectory
vmm_initialize_lem p t t2 d pmm1 pmm2 pmm3 a1 a2 a3 pt pt2 pd bt bt2 apart apart1 apart2 =
    let is_table : (t * 4096 == 0) ≡ false = ground arith in
    let is_table2 : (t2 * 4096 == 0) ≡ false = ground arith in
    let is_directory : (d * 4096 == 0) ≡ false = ground arith in
    let p' : Paging = record {
      vm = built p.vm.mem pmm3 d t t2 pd bt bt2 apart apart1 apart2;
      cur_directory = d * 4096;
      cur_pdbr = d * 4096;
      pdbr = d * 4096;
      enabled = 1;
    } in
    (
      p',
      rw (a1, a2, a3, is_table, is_table2, is_directory) refl,
      refl,
      refl,
      refl,
      reads_first_entry p.vm.mem pmm3 d t t2 pd bt bt2 apart apart1 apart2,
    )
