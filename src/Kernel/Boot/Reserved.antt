-- ===== src/Kernel/Boot/Reserved.antt =====
-- Which blocks are reserved, and which are free, after the start.
use sea_star_os.Base.{
  ℕ, zero, suc, ◌+◌, ◌/◌, ◌≤◌, ◌<◌, ◌≡◌, ◌≢◌, ◌⊎◌, inl, inr, Bool, true, false, ◌&&◌, ◌||◌, arith,
  ltb, leb, ◌==◌, if◌then◌else◌, Bool-cases, u32,
}
use sea_star_os.Kernel.Pmm.{
  Pmm, pmm_init, pmm_init_region, pmm_deinit_region, unset_region, block_used,
}
use sea_star_os.Kernel.Pmm.Bits.{block_used-mmap_set}
use sea_star_os.Kernel.Pmm.Regions.{within, block_used-unset_region, block_used-set_region}
use sea_star_os.Kernel.Boot.{MemoryMap, take_region, init_regions, set_up_memory}

init_region-block :
    (s : Pmm) (base size f : ℕ)
    → f ≢ 0
    → block_used (pmm_init_region s base size) f
      ≡ (if within (base / 4096) (base / 4096 + (size / 4096 + 1)) f then 0 else block_used s f)
unfolding pmm_init_region
init_region-block s base size f ne =
    let cleared = unset_region (size / 4096 + 1) s (base / 4096) in
    ground (
      arith,
      block_used-mmap_set cleared 0 f,
      block_used-unset_region (size / 4096 + 1) s (base / 4096) f,
    )

deinit_region-block :
    (s : Pmm) (base size f : ℕ)
    → block_used (pmm_deinit_region s base size) f
      ≡ (if within (base / 4096) (base / 4096 + (size / 4096 + 1)) f then 1 else block_used s f)
unfolding pmm_deinit_region
deinit_region-block s base size f = block_used-set_region (size / 4096 + 1) s (base / 4096) f

-- The map's entries up to `i` are taken: no entry of an unknown kind, and no end of the map.
abbrev pub IsReached : (ℕ → MemoryMap) → ℕ → Type 0
IsReached region i =
    (j : ℕ) → j ≤ i → ((region j).kind ≤ 4) × (0 < j → (region j).base_addr_low ≢ 0)

abbrev pub covers : MemoryMap → ℕ → Bool
covers r f = within (r.base_addr_low / 4096) (r.base_addr_low / 4096 + (r.length_low / 4096 + 1)) f

take_region-free :
    (r : MemoryMap) (s : Pmm) (f : ℕ)
    → f ≢ 0
    → (block_used s f ≡ 0) ⊎ ((r.kind ≡ 1) × (covers r f ≡ true))
    → block_used (take_region r s) f ≡ 0
unfolding take_region
take_region-free r s f ne h =
    let after = init_region-block s r.base_addr_low r.length_low f ne in
    elim (Bool-cases (r.kind == 1)) [
      | inl t ↦ rw t (elim h [ inl e ↦ ground (arith, after, e) | inr (q, c) ↦ rw c at after ])
      | inr t ↦ rw t (elim h [ inl e ↦ e | inr (q, c) ↦ absurd (ground (arith, q)) ])
    ]

free_stays :
    (left : ℕ) (region : ℕ → MemoryMap) (i : ℕ) (s : Pmm) (f : ℕ)
    → f ≢ 0
    → block_used s f ≡ 0
    → block_used (init_regions left region i s) f ≡ 0
unfolding init_regions
free_stays zero region i s f ne e = e
free_stays (suc left) region i s f ne e =
    let e' = take_region-free (region i) s f ne (inl e) in
    elim (Bool-cases (ltb 4 (region i).kind)) [
      | inl t ↦ rw t e
      | inr t ↦ elim (Bool-cases (ltb 0 i && (region i).base_addr_low == 0)) [
        | inl u ↦ rw (t, u) e
        | inr u ↦ rw (t, u) (free_stays left region (i + 1) (take_region (region i) s) f ne e')
      ]
    ]

freed :
    (left : ℕ) (region : ℕ → MemoryMap) (i k : ℕ) (s : Pmm) (f : ℕ)
    → f ≢ 0
    → i ≤ k
    → k < i + left
    → IsReached region k
    → (region k).kind ≡ 1
    → covers (region k) f ≡ true
    → block_used (init_regions left region i s) f ≡ 0
unfolding init_regions
freed zero region i k s f ne l m reached kind c = absurd (omega (arith, l, m))
freed (suc left) region i k s f ne l m reached kind c =
    let s' = take_region (region i) s in
    let (known, more) = reached i l in
    let t : ltb 4 (region i).kind ≡ false = ground (arith, known) in
    let u : (ltb 0 i && (region i).base_addr_low == 0) ≡ false = ground (arith, more) in
    rw (t, u)
      (elim (Bool-cases (i == k)) [
        | inl same ↦
            (let at : k ≡ i = ground arith in
              free_stays left region (i + 1) s' f ne
                (take_region-free (region i) s f ne (inr (rw at at kind, rw at at c))))
        | inr other ↦
            freed left region (i + 1) k s' f ne (ground arith) (omega (arith, m)) reached kind c
      ])

-- the blocks of the kernel's image and of the first 64 KB, with one block more for each
abbrev pub is_reserved : ℕ → ℕ → Bool
is_reserved kernel_size f = leb f 16 || leb 256 f && leb f (256 + kernel_size / 4096)

-- After kmain has set up the memory, every block of the kernel's image and of the first 64 KB is in
-- use, whatever the memory map says and whatever stood in the bitmap.
pub set_up_memory_reserved :
    (kernel_size mem_lower mem_upper : ℕ) (region : ℕ → MemoryMap) (memory : ℕ → ℕ) (f : ℕ)
    → is_reserved kernel_size f ≡ true
    → block_used (set_up_memory kernel_size mem_lower mem_upper region memory) f ≡ 1
unfolding set_up_memory
set_up_memory_reserved kernel_size mem_lower mem_upper region memory f r =
    let s = init_regions 10 region 0 (pmm_init (u32 (mem_lower + mem_upper)) memory) in
    ground (
      arith,
      r,
      deinit_region-block s 0x100000 kernel_size f,
      deinit_region-block (pmm_deinit_region s 0x100000 kernel_size) 0 0x10000 f,
    )

-- After kmain has set up the memory, a block that is not reserved is free if it lies in an available
-- region of the memory map, among the first 10 entries and in front of the map's end.
pub set_up_memory_available :
    (kernel_size mem_lower mem_upper : ℕ) (region : ℕ → MemoryMap) (memory : ℕ → ℕ) (f k : ℕ)
    → is_reserved kernel_size f ≡ false
    → k < 10
    → IsReached region k
    → (region k).kind ≡ 1
    → covers (region k) f ≡ true
    → block_used (set_up_memory kernel_size mem_lower mem_upper region memory) f ≡ 0
unfolding set_up_memory
set_up_memory_available kernel_size mem_lower mem_upper region memory f k r l reached kind c =
    let s = init_regions 10 region 0 (pmm_init (u32 (mem_lower + mem_upper)) memory) in
    ground (
      arith,
      r,
      freed 10 region 0 k (pmm_init (u32 (mem_lower + mem_upper)) memory) f (ground (arith, r))
          (omega arith) l reached kind c,
      deinit_region-block s 0x100000 kernel_size f,
      deinit_region-block (pmm_deinit_region s 0x100000 kernel_size) 0 0x10000 f,
    )
