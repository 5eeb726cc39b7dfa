-- ===== src/Kernel/Vmm/Mapping.antt =====
-- vmm_mapPhysicalAddr, vmm_createPageTable and vmm_getPhysicalAddr.
use sea_star_os.Base.{
  ℕ, suc, ◌+◌, ◌*◌, ◌/◌, ◌%◌, ◌^◌, ◌≤◌, ◌<◌, bit_and, bit_or, ◌≡◌, refl, sym, ap, ◌∙◌, ◌≢◌, inl,
  inr, true, some, arith, leb, ◌==◌, if◌then◌else◌, ==_iff, Bool-cases, not32, update, update_lem,
  test_bit, test_bit-le, test_bit-and, word_ext, bit_and-lt, test_bit-high, test_bit-shifted,
  all_below, all_below_sound,
}
use native.Mathlib.Decide.{dec_lt}
use sea_star_os.Kernel.Vmm.{Vm, pde_at, pte_at, vmm_map_physical_addr, vmm_get_physical_addr}

high_table : all_below 32 (λ j. test_bit (not32 0xfff) j == (if leb 12 j then 1 else 0)) ≡ true
unfolding all_below test_bit
high_table = refl

-- `pde & ~0xfff` is the address of the page that `pde` points into.
pub page_of_entry : (a : ℕ) → a < 2 ^ 32 → bit_and a (not32 0xfff) ≡ a / 4096 * 4096
page_of_entry a h = word_ext 32 _ _ (bit_and-lt 32 _ _ h) (omega arith) (λ j l. elim (dec_lt j 12) [
  | yes lo ↦ ground (
    arith,
    test_bit-and a (not32 0xfff) j,
    (==_iff _ _).0 (all_below_sound 32 _ j high_table l),
    test_bit-shifted 12 (a / 4096) j,
  )
  | no hi ↦ ground (
    arith,
    test_bit-and a (not32 0xfff) j,
    (==_iff _ _).0 (all_below_sound 32 _ j high_table l),
    whole j (omega arith),
    test_bit-le a j,
  )
])
  where
    whole : (j : ℕ) → 12 ≤ j → test_bit a j ≡ test_bit (a / 4096 * 4096) j
    whole j l =
        let e : a ≡ a / 4096 * 4096 + a % 4096 = omega arith in
        let z : a / 4096 * 4096 ≡ a / 4096 * 4096 + 0 = omega arith in
        ap (λ t. test_bit t j) e
        ∙ test_bit-high 12 (a / 4096) (a % 4096) j (omega arith) l
        ∙ sym (test_bit-high 12 (a / 4096) 0 j (omega arith) l)
        ∙ sym (ap (λ t. test_bit t j) z)

-- The directory at `dir` is a page, apart from the page tables that it names, and two slots do not
-- share a table.
pub record IsDirectory (mem : ℕ → ℕ) (dir : ℕ) : Type 0 where
  pub aligned : dir % 4096 ≡ 0
  pub words : (v : ℕ) → v < 2 ^ 32 → mem (pde_at dir v) < 2 ^ 32
  pub apart : (v : ℕ) → v < 2 ^ 32 → mem (pde_at dir v) ≢ 0 → mem (pde_at dir v) / 4096 ≢ dir / 4096
  pub distinct :
      (v w : ℕ)
      → v < 2 ^ 32
      → w < 2 ^ 32
      → mem (pde_at dir v) ≢ 0
      → mem (pde_at dir v) / 4096 ≡ mem (pde_at dir w) / 4096
      → v / 2 ^ 22 ≡ w / 2 ^ 22

pub IsDirectory-same :
    (mem mem' : ℕ → ℕ) (dir : ℕ)
    → ((w : ℕ) → w < 2 ^ 32 → mem' (pde_at dir w) ≡ mem (pde_at dir w))
    → IsDirectory mem dir
    → IsDirectory mem' dir
IsDirectory-same mem mem' dir e d = record {
  aligned = d.aligned;
  words = λ v h. rw (e v h) (d.words v h);
  apart = λ v h. rw (e v h) (d.apart v h);
  distinct = λ v w hv hw. rw (e v hv, e w hw) (d.distinct v w hv hw);
}

module _ (mem : ℕ → ℕ) (dir : ℕ) (d : IsDirectory mem dir) where
  pub pte_place :
      (v : ℕ)
      → v < 2 ^ 32
      → pte_at (mem (pde_at dir v)) v ≡ mem (pde_at dir v) / 4096 * 4096 + 4 * (v % 2 ^ 22 / 4096)
  pte_place v h = rw (page_of_entry (mem (pde_at dir v)) (d.words v h)) (omega arith)

  pub pte_apart :
      (v w : ℕ)
      → v < 2 ^ 32
      → w < 2 ^ 32
      → mem (pde_at dir v) ≢ 0
      → pde_at dir w ≢ pte_at (mem (pde_at dir v)) v
  pte_apart v w hv hw ne e = d.apart v hv ne (omega (arith, pte_place v hv, d.aligned, e))

  pte_distinct :
      (v w : ℕ)
      → v < 2 ^ 32
      → w < 2 ^ 32
      → mem (pde_at dir v) ≢ 0
      → pte_at (mem (pde_at dir w)) w ≡ pte_at (mem (pde_at dir v)) v
      → w / 4096 ≡ v / 4096
  pte_distinct v w hv hw ne e =
      let p = d.distinct v w hv hw ne (omega (arith, pte_place v hv, pte_place w hw, e)) in
      omega (arith, pte_place v hv, pte_place w hw, e, p)

  pte_same : (v w : ℕ) → w / 4096 ≡ v / 4096 → pde_at dir w ≡ pde_at dir v
  pte_same v w e = omega arith

-- The whole effect of a mapping: what reads back, and that no slot of the directory changes.
pub map_into_table :
    (fuel : ℕ) (vm : Vm) (dir v physical flags : ℕ)
    → IsDirectory vm.mem dir
    → v < 2 ^ 32
    → vm.mem (pde_at dir v) ≢ 0
    → (vm' : Vm) × (vmm_map_physical_addr (suc fuel) vm dir v physical flags ≡ some vm')
      × ((w : ℕ)
          → w < 2 ^ 32
          → vmm_get_physical_addr vm' dir w ≡ (
              if w / 4096 == v / 4096
              then bit_or physical flags
              else vmm_get_physical_addr vm dir w))
      × IsDirectory vm'.mem dir
      × (vm'.pmm ≡ vm.pmm)
      × ((w : ℕ) → w < 2 ^ 32 → vm'.mem (pde_at dir w) ≡ vm.mem (pde_at dir w))
unfolding vmm_map_physical_addr
map_into_table fuel vm dir v physical flags d hv ne =
    (vm', ground arith, reads, IsDirectory-same vm.mem vm'.mem dir same_slot d, refl, same_slot)
  where
    at : ℕ
    at = pte_at (vm.mem (pde_at dir v)) v

    vm' : Vm
    vm' = record vm { mem = update vm.mem at (bit_or physical flags) }

    same_slot : (w : ℕ) → w < 2 ^ 32 → vm'.mem (pde_at dir w) ≡ vm.mem (pde_at dir w)
    same_slot w hw = ground (
      arith,
      update_lem vm.mem at (bit_or physical flags) (pde_at dir w),
      pte_apart vm.mem dir d v w hv hw ne,
    )

    reads :
        (w : ℕ)
        → w < 2 ^ 32
        → vmm_get_physical_addr vm' dir w
          ≡ (if w / 4096 == v / 4096 then bit_or physical flags else vmm_get_physical_addr vm dir w)
    reads w hw =
        unfold vmm_get_physical_addr in
        rw (same_slot w hw) (elim (Bool-cases (w / 4096 == v / 4096)) [
          | inl t ↦
              let same : w / 4096 ≡ v / 4096 = (==_iff _ _).0 t in
              let slot = pte_same vm.mem dir d v w same in
              let place : pte_at (vm.mem (pde_at dir w)) w ≡ at = rw slot (omega arith) in
              rw t (
                ground (
                  arith,
                  update_lem vm.mem at (bit_or physical flags) (pte_at (vm.mem (pde_at dir w)) w),
                  place,
                  slot,
                ))
          | inr t ↦ rw t (
              ground (
                arith,
                update_lem vm.mem at (bit_or physical flags) (pte_at (vm.mem (pde_at dir w)) w),
                pte_distinct vm.mem dir d v w hv hw ne,
              ))
        ])

-- Mapping an address whose page table is there makes that page read back as `physical | flags`, the
-- whole entry with its flags, and leaves what every other page reads as it was; the directory stays
-- well formed and the allocator is not called.
pub vmm_get_physical_addr-map :
    (fuel : ℕ) (vm : Vm) (dir v physical flags : ℕ)
    → IsDirectory vm.mem dir
    → v < 2 ^ 32
    → vm.mem (pde_at dir v) ≢ 0
    → (vm' : Vm) × (vmm_map_physical_addr (suc fuel) vm dir v physical flags ≡ some vm')
      × ((w : ℕ)
          → w < 2 ^ 32
          → vmm_get_physical_addr vm' dir w ≡ (
              if w / 4096 == v / 4096
              then bit_or physical flags
              else vmm_get_physical_addr vm dir w))
      × IsDirectory vm'.mem dir
      × (vm'.pmm ≡ vm.pmm)
vmm_get_physical_addr-map fuel vm dir v physical flags d hv ne =
    let (vm', e, reads, well, same, _) = map_into_table fuel vm dir v physical flags d hv ne in
    (vm', e, reads, well, same)

-- a mapping into a table that is there writes one word
pub map_keeps :
    (fuel : ℕ) (vm vm' : Vm) (dir v physical flags a : ℕ)
    → vm.mem (pde_at dir v) ≢ 0
    → vmm_map_physical_addr (suc fuel) vm dir v physical flags ≡ some vm'
    → a ≢ pte_at (vm.mem (pde_at dir v)) v
    → vm'.mem a ≡ vm.mem a
unfolding vmm_map_physical_addr
map_keeps fuel vm vm' dir v physical flags a ne e apart =
    let at = pte_at (vm.mem (pde_at dir v)) v in
    let same : vm' ≡ record vm { mem = update vm.mem at (bit_or physical flags) } = ground arith in
    rw same (ground (arith, update_lem vm.mem at (bit_or physical flags) a))
