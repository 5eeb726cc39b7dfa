-- ===== src/Kernel/Vmm/Creation.antt =====
-- vmm_createPageTable: what it clears, and how deep its calls of vmm_mapPhysicalAddr go.
use sea_star_os.Base.{
  ℕ, suc, ◌+◌, ◌*◌, ◌/◌, ◌%◌, ◌^◌, ◌≤◌, ◌<◌, bit_or, ◌≡◌, refl, ap, ◌∙◌, ◌≢◌, ◌⊎◌, inl, inr, false,
  some, arith, ◌==◌, if◌then◌else◌, Bool-cases, update, update_lem, bit_or-disjoint,
}
use sea_star_os.Kernel.Pmm.{pmm_alloc_block}
use sea_star_os.Kernel.Vmm.{
  Vm, pde_at, pte_at, memset_zero, create_page_table, vmm_map_physical_addr, vmm_create_page_table,
  vmm_get_physical_addr,
}
use sea_star_os.Kernel.Vmm.Mapping.{page_of_entry}

pub memset_zero_inside :
    (mem : ℕ → ℕ) (start n a : ℕ) → start ≤ a → a + 4 ≤ start + n → memset_zero mem start n a ≡ 0
unfolding memset_zero
memset_zero_inside mem start n a h l = ground arith

pub memset_zero_outside :
    (mem : ℕ → ℕ) (start n a : ℕ)
    → mem a < 2 ^ 32
    → (a + 4 ≤ start) ⊎ (start + n ≤ a)
    → memset_zero mem start n a ≡ mem a
unfolding memset_zero
memset_zero_outside mem start n a w h = ground arith

memset_zero_first : (mem : ℕ → ℕ) (a : ℕ) → memset_zero mem (a + 3) 4096 a ≡ mem a % 2 ^ 24
unfolding memset_zero
memset_zero_first mem a = ground arith

memset_zero_after :
    (mem : ℕ → ℕ) (a : ℕ)
    → mem (a + 4096) < 2 ^ 32
    → memset_zero mem (a + 3) 4096 (a + 4096) ≡ mem (a + 4096) / 2 ^ 24 * 2 ^ 24
unfolding memset_zero
memset_zero_after mem a w = ground arith

map_after_create :
    (fuel : ℕ) (vm vm' : Vm) (dir virtual physical flags status : ℕ)
    → vm.mem (pde_at dir virtual) ≡ 0
    → create_page_table (vmm_map_physical_addr fuel) vm dir virtual flags ≡ some (status, vm')
    → vmm_map_physical_addr (suc fuel) vm dir virtual physical flags
      ≡ some (record vm' {
        mem =
            update vm'.mem (pte_at (vm'.mem (pde_at dir virtual)) virtual) (bit_or physical flags);
      })
unfolding vmm_map_physical_addr
map_after_create fuel vm vm' dir virtual physical flags status z c = ground (arith, c)

-- A fresh block `q`, given by the allocator for a missing table. The directory lies in neither of
-- the pages that are cleared, and the table that maps the block is there: the new one, or one apart
-- from the directory and from the cleared pages.
pub record IsFresh (vm : Vm) (dir virtual q : ℕ) : Type 0 where
  pub words : (a : ℕ) → vm.mem a < 2 ^ 32
  pub aligned : dir % 4096 ≡ 0
  pub missing : vm.mem (pde_at dir virtual) ≡ 0
  pub given : (pmm_alloc_block vm.pmm).0 ≡ q * 4096
  pub not_null : 0 < q
  pub in_range : q < 2 ^ 20
  pub apart : (dir / 4096 < q) ⊎ (q + 1 < dir / 4096)
  pub mapped :
      (q * 4096 / 2 ^ 22 ≡ virtual / 2 ^ 22)
      ⊎ ((vm.mem (pde_at dir (q * 4096)) ≢ 0)
          × (vm.mem (pde_at dir (q * 4096)) / 4096 ≢ dir / 4096)
          × ((vm.mem (pde_at dir (q * 4096)) / 4096 < q)
              ⊎ (q + 1 < vm.mem (pde_at dir (q * 4096)) / 4096)))

module _ (vm : Vm) (dir virtual q : ℕ) (hv : virtual < 2 ^ 32) (f : IsFresh vm dir virtual q) where
  -- memory with the new slot, before and after the clearing
  slotted : ℕ → ℕ
  slotted = update vm.mem (pde_at dir virtual) (q * 4096 + 3)

  cleared : ℕ → ℕ
  cleared = memset_zero slotted (q * 4096 + 3) 4096

  slotted_at : (a : ℕ) → slotted a ≡ (if a == pde_at dir virtual then q * 4096 + 3 else vm.mem a)
  unfolding slotted
  slotted_at a = update_lem vm.mem (pde_at dir virtual) (q * 4096 + 3) a

  slot_outside :
      (w : ℕ)
      → w < 2 ^ 32
      → (pde_at dir w + 4 ≤ q * 4096 + 3) ⊎ (q * 4096 + 3 + 4096 ≤ pde_at dir w)
  slot_outside w hw = elim f.apart [
    | inl lo ↦ inl (omega (arith, lo, f.aligned))
    | inr hi ↦ inr (omega (arith, hi, f.aligned))
  ]

  slot_kept :
      (w : ℕ)
      → w < 2 ^ 32
      → cleared (pde_at dir w)
        ≡ (if w / 2 ^ 22 == virtual / 2 ^ 22 then q * 4096 + 3 else vm.mem (pde_at dir w))
  unfolding cleared
  slot_kept w hw =
      memset_zero_outside slotted (q * 4096 + 3) 4096 (pde_at dir w)
        (ground (arith, slotted_at (pde_at dir w), f.words (pde_at dir w), f.in_range))
        (slot_outside w hw)
      ∙ ground (arith, slotted_at (pde_at dir w))

  -- the entry that maps the block onto itself
  self_at : ℕ
  self_at = pte_at (cleared (pde_at dir (q * 4096))) (q * 4096)

  slot_of_block :
      (cleared (pde_at dir (q * 4096)) ≢ 0)
      × (cleared (pde_at dir (q * 4096)) < 2 ^ 32)
      × ((cleared (pde_at dir (q * 4096)) / 4096 ≡ q)
          ⊎ ((cleared (pde_at dir (q * 4096)) / 4096 ≢ dir / 4096)
              × ((cleared (pde_at dir (q * 4096)) / 4096 < q)
                  ⊎ (q + 1 < cleared (pde_at dir (q * 4096)) / 4096))))
  slot_of_block = elim (Bool-cases (q * 4096 / 2 ^ 22 == virtual / 2 ^ 22)) [
    | inl t ↦
        rw (slot_kept (q * 4096) (omega (arith, f.in_range)), t)
          (omega arith, omega (arith, f.in_range), inl (omega arith))
    | inr t ↦ elim f.mapped [
      | inl same ↦ absurd (ground arith)
      | inr there ↦
          rw (slot_kept (q * 4096) (omega (arith, f.in_range)), t)
            (there.0, f.words (pde_at dir (q * 4096)), inr (there.1, there.2))
    ]
  ]

  self_place : self_at ≡ cleared (pde_at dir (q * 4096)) / 4096 * 4096 + 4 * (q % 1024)
  unfolding self_at
  self_place =
      rw (page_of_entry (cleared (pde_at dir (q * 4096))) slot_of_block.1)
        (omega (arith, f.in_range))

  self_apart : (w : ℕ) → w < 2 ^ 32 → pde_at dir w ≢ self_at
  self_apart w hw e = elim slot_of_block.2 [
    | inl own ↦ elim f.apart [
      | inl lo ↦ omega (arith, self_place, own, f.aligned, lo)
      | inr hi ↦ omega (arith, self_place, own, f.aligned, hi)
    ]
    | inr there ↦ there.0 (omega (arith, self_place, f.aligned))
  ]

  made : Vm
  made = record { pmm = (pmm_alloc_block vm.pmm).1; mem = update cleared self_at (q * 4096 + 3) }

  map_block :
      (fuel : ℕ)
      → vmm_map_physical_addr
          (suc fuel)
          (record { pmm = (pmm_alloc_block vm.pmm).1; mem = cleared })
          dir
          (q * 4096)
          (q * 4096)
          3
        ≡ some made
  unfolding vmm_map_physical_addr made self_at
  map_block fuel = ground (arith, slot_of_block.0, bit_or-disjoint 12 q 3)

  not_null_test : (q * 4096 == 0) ≡ false
  not_null_test = ground (arith, f.not_null)

  create_makes : (fuel : ℕ) → vmm_create_page_table (suc fuel) vm dir virtual 3 ≡ some (1, made)
  unfolding vmm_create_page_table create_page_table cleared slotted
  create_makes fuel =
      rw (f.missing, f.given, not_null_test, bit_or-disjoint 12 q 3 (omega arith), map_block fuel)

  create_step :
      (fuel : ℕ)
      → create_page_table (vmm_map_physical_addr (suc fuel)) vm dir virtual 3 ≡ some (1, made)
  unfolding vmm_create_page_table
  create_step fuel = create_makes fuel

  made_word : (a : ℕ) → made.mem a ≡ (if a == self_at then q * 4096 + 3 else cleared a)
  unfolding made
  made_word a = update_lem cleared self_at (q * 4096 + 3) a

  block_apart :
      (a : ℕ) → q * 4096 ≤ a → a ≤ q * 4096 + 4096 → a ≢ q * 4096 + 4 * (q % 1024) → a ≢ self_at
  block_apart a lo hi ne e = elim slot_of_block.2 [
    | inl own ↦ ne (omega (arith, self_place, own))
    | inr there ↦ elim there.1 [
      | inl below ↦ omega (arith, self_place)
      | inr above ↦ omega (arith, self_place)
    ]
  ]

  block_slotted : (a : ℕ) → q * 4096 ≤ a → a ≤ q * 4096 + 4096 → slotted a ≡ vm.mem a
  block_slotted a lo hi = elim f.apart [
    | inl below ↦ ground (arith, slotted_at a, f.aligned)
    | inr above ↦ ground (arith, slotted_at a, f.aligned)
  ]

  block_word :
      (a : ℕ)
      → q * 4096 ≤ a
      → a ≤ q * 4096 + 4096
      → a ≢ q * 4096 + 4 * (q % 1024)
      → made.mem a ≡ cleared a
  block_word a lo hi ne = ground (arith, made_word a, block_apart a lo hi ne)

  -- Addresses and the words of memory are of 32 bits. Creating a table for a missing slot, with the
  -- flags present and writable, where the allocator gives
  -- a block that is not the one at address 0, whose number is no multiple of 1024, and that lies apart
  -- from the directory (which is on a page of its own, and not the page behind the block); and where the
  -- table that maps this block is the new one, or one that is there and apart from the directory, the
  -- block and the page behind it. Then it succeeds with one call of vmm_mapPhysicalAddr, which makes
  -- none of its own. The table is cleared from its fourth byte
  -- on, since the flags are part of the address: the low three bytes of its first word are what the
  -- memory held, and the low three bytes of the word behind the table are cleared. The other words of
  -- the table are 0, but for the one that maps the block.
  pub vmm_create_page_table_lem :
      (fuel : ℕ)
      → q % 1024 ≢ 0
      → (vm' : Vm) × (vmm_create_page_table (suc fuel) vm dir virtual 3 ≡ some (1, vm'))
        × (vm'.mem (pde_at dir virtual) ≡ q * 4096 + 3)
        × (vm'.mem (q * 4096) ≡ vm.mem (q * 4096) % 2 ^ 24)
        × (vm'.mem (q * 4096 + 4096) ≡ vm.mem (q * 4096 + 4096) / 2 ^ 24 * 2 ^ 24)
        × ((i : ℕ) → 0 < i → i < 1024 → i ≢ q % 1024 → vm'.mem (q * 4096 + 4 * i) ≡ 0)
  unfolding cleared
  vmm_create_page_table_lem fuel nz = (
    made,
    create_makes fuel,
    ground (arith, made_word (pde_at dir virtual), self_apart virtual hv, slot_kept virtual hv),
    block_word (q * 4096) (omega arith) (omega arith) (omega arith)
        ∙ memset_zero_first slotted (q * 4096)
        ∙ ap (λ w. w % 2 ^ 24) (block_slotted (q * 4096) (omega arith) (omega arith)),
    block_word (q * 4096 + 4096) (omega arith) (omega arith) (omega arith)
        ∙ memset_zero_after slotted (q * 4096)
            (rw (block_slotted (q * 4096 + 4096) (omega arith) (omega arith)) (f.words _))
        ∙ ap (λ w. w / 2 ^ 24 * 2 ^ 24)
            (block_slotted (q * 4096 + 4096) (omega arith) (omega arith)),
    λ i p l ne.
        block_word (q * 4096 + 4 * i) (omega arith) (omega arith) (omega arith)
        ∙ memset_zero_inside slotted (q * 4096 + 3) 4096 (q * 4096 + 4 * i) (omega arith)
            (omega arith),
  )

  -- Addresses and the words of memory are of 32 bits. Mapping an address whose table is missing, with
  -- the flags present and writable, ends within two
  -- calls and takes one block, and the address then reads back as what was mapped: where the allocator
  -- gives a block that is not the one at address 0 and lies apart from the directory (which is on a page
  -- of its own, and not the page behind the block), and the table that maps this block is the new one,
  -- or one that is there and apart from the directory, the block and the page behind it.
  pub vmm_get_physical_addr-create :
      (fuel physical : ℕ)
      → (vm' : Vm) × (vmm_map_physical_addr (suc (suc fuel)) vm dir virtual physical 3 ≡ some vm')
        × (vmm_get_physical_addr vm' dir virtual ≡ bit_or physical 3)
        × (vm'.pmm ≡ (pmm_alloc_block vm.pmm).1)
  vmm_get_physical_addr-create fuel physical = (
    record made { mem = update made.mem at (bit_or physical 3) },
    maps,
    reads,
    unfold made in refl,
  )
    where
      slot : made.mem (pde_at dir virtual) ≡ q * 4096 + 3
      slot =
          ground
            (arith, made_word (pde_at dir virtual), self_apart virtual hv, slot_kept virtual hv)

      at : ℕ
      at = pte_at (q * 4096 + 3) virtual

      at_place : at ≡ q * 4096 + 4 * (virtual % 2 ^ 22 / 4096)
      at_place = rw (page_of_entry (q * 4096 + 3) (omega (arith, f.in_range))) (omega arith)

      slot_apart : pde_at dir virtual ≢ at
      slot_apart e = elim f.apart [
        | inl below ↦ omega (arith, at_place, f.aligned)
        | inr above ↦ omega (arith, at_place, f.aligned)
      ]

      maps :
          vmm_map_physical_addr (suc (suc fuel)) vm dir virtual physical 3
          ≡ some (record made { mem = update made.mem at (bit_or physical 3) })
      maps =
          map_after_create (suc fuel) vm made dir virtual physical 3 1 f.missing (create_step fuel)
          ∙ rw slot

      slot_after : update made.mem at (bit_or physical 3) (pde_at dir virtual) ≡ q * 4096 + 3
      slot_after =
          ground (
            arith,
            update_lem made.mem at (bit_or physical 3) (pde_at dir virtual),
            slot_apart,
            slot,
          )

      reads :
          vmm_get_physical_addr
            (record made { mem = update made.mem at (bit_or physical 3) })
            dir
            virtual
          ≡ bit_or physical 3
      reads =
          unfold vmm_get_physical_addr in
          rw slot_after (ground (arith, update_lem made.mem at (bit_or physical 3) at))
