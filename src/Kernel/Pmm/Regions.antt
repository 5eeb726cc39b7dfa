-- ===== src/Kernel/Pmm/Regions.antt =====
-- pmm_init, pmm_init_region and pmm_deinit_region: which blocks they free and which they reserve.
use sea_star_os.Base.{
  ℕ, zero, suc, ◌+◌, ◌-◌, ◌*◌, ◌/◌, ◌%◌, ◌^◌, ◌≤◌, ◌<◌, ◌≡◌, refl, ◌∙◌, Bool, true, ◌&&◌, map,
  arith, ltb, leb, ◌==◌, if◌then◌else◌, ==_iff, u32, sub32, test_bit, all_below, all_below_sound,
}
use sea_star_os.Kernel.Pmm.{
  Pmm, memset_map, pmm_init, mmap_set, mmap_unset, unset_region, set_region, pmm_init_region,
  pmm_deinit_region, block_used,
}
use sea_star_os.Kernel.Pmm.Bits.{
  count, block_used-count, block_used-mmap_set, block_used-mmap_unset,
}

abbrev pub within : ℕ → ℕ → ℕ → Bool
within lo hi f = leb lo f && ltb f hi

pub block_used-unset_region :
    (n : ℕ) (s : Pmm) (a f : ℕ)
    → block_used (unset_region n s a) f ≡ (if within a (a + n) f then 0 else block_used s f)
unfolding unset_region
block_used-unset_region zero s a f = ground arith
block_used-unset_region (suc n) s a f = ground (
  arith,
  block_used-unset_region n (count (mmap_unset s a) (sub32 (mmap_unset s a).used_blocks 1)) (a + 1)
      f,
  block_used-count (mmap_unset s a) (sub32 (mmap_unset s a).used_blocks 1) f,
  block_used-mmap_unset s a f,
)

pub block_used-set_region :
    (n : ℕ) (s : Pmm) (a f : ℕ)
    → block_used (set_region n s a) f ≡ (if within a (a + n) f then 1 else block_used s f)
unfolding set_region
block_used-set_region zero s a f = ground arith
block_used-set_region (suc n) s a f = ground (
  arith,
  block_used-set_region n (count (mmap_set s a) (u32 ((mmap_set s a).used_blocks + 1))) (a + 1) f,
  block_used-count (mmap_set s a) (u32 ((mmap_set s a).used_blocks + 1)) f,
  block_used-mmap_set s a f,
)

used_blocks-unset_region :
    (n : ℕ) (s : Pmm) (a : ℕ)
    → s.used_blocks < 2 ^ 32
    → n ≤ s.used_blocks
    → (unset_region n s a).used_blocks ≡ s.used_blocks - n
unfolding unset_region mmap_unset
used_blocks-unset_region zero s a h l = omega arith
used_blocks-unset_region (suc n) s a h l =
    used_blocks-unset_region n _ (a + 1) (omega arith) (omega arith) ∙ omega arith

used_blocks-set_region :
    (n : ℕ) (s : Pmm) (a : ℕ)
    → s.used_blocks + n < 2 ^ 32
    → (set_region n s a).used_blocks ≡ s.used_blocks + n
unfolding set_region mmap_set
used_blocks-set_region zero s a h = omega arith
used_blocks-set_region (suc n) s a h =
    used_blocks-set_region n _ (a + 1) (omega arith) ∙ omega arith

-- pmm_init_region frees the blocks from base / 4096 to base / 4096 + size / 4096, the last one
-- included, then reserves block 0; every other block stays as it was. The counter goes down by
-- size / 4096 + 1, whatever was in use before, where it does not wrap.
pub pmm_init_region_lem :
    (s : Pmm) (base size : ℕ)
    → s.used_blocks < 2 ^ 32
    → size / 4096 < s.used_blocks
    → ((f : ℕ)
        → block_used (pmm_init_region s base size) f ≡ (
            if f == 0
            then 1
            else if leb (base / 4096) f && leb f (base / 4096 + size / 4096)
            then 0
            else block_used s f))
      × ((pmm_init_region s base size).used_blocks ≡ s.used_blocks - (size / 4096 + 1))
unfolding pmm_init_region
pmm_init_region_lem s base size h l = (
  λ f. ground (
    arith,
    block_used-mmap_set (unset_region (size / 4096 + 1) s (base / 4096)) 0 f,
    block_used-unset_region (size / 4096 + 1) s (base / 4096) f,
  ),
  unfold mmap_set in used_blocks-unset_region (size / 4096 + 1) s (base / 4096) h (omega arith),
)

-- pmm_deinit_region reserves the blocks from base / 4096 to base / 4096 + size / 4096, the last one
-- included, changes no other block, and adds size / 4096 + 1 to the counter where it does not wrap.
pub pmm_deinit_region_lem :
    (s : Pmm) (base size : ℕ)
    → s.used_blocks + (size / 4096 + 1) < 2 ^ 32
    → ((f : ℕ)
        → block_used (pmm_deinit_region s base size) f ≡ (
            if leb (base / 4096) f && leb f (base / 4096 + size / 4096) then 1 else block_used s f))
      × ((pmm_deinit_region s base size).used_blocks ≡ s.used_blocks + (size / 4096 + 1))
unfolding pmm_deinit_region
pmm_deinit_region_lem s base size h = (
  λ f. ground (arith, block_used-set_region (size / 4096 + 1) s (base / 4096) f),
  used_blocks-set_region (size / 4096 + 1) s (base / 4096) h,
)

memset_table : all_below 32 (λ j. test_bit 0x0f0f0f0f j == (if ltb (j % 8) 4 then 1 else 0)) ≡ true
unfolding all_below test_bit
memset_table = refl

memset_map-word : (n : ℕ) (map : ℕ → ℕ) (i : ℕ) → 4 * i + 4 ≤ n → memset_map n map i ≡ 0x0f0f0f0f
unfolding memset_map
memset_map-word n map i h = ground arith

-- pmm_init fills the bitmap with 0x0f, so of the blocks whose word lies whole in the bitmap the low
-- four of each eight are used and the high four are free, while the counter says that all are used.
pub pmm_init_lem :
    (mem_size : ℕ) (memory : ℕ → ℕ) (f : ℕ)
    → let s = pmm_init mem_size memory in
      f < 32 * (s.max_blocks / 32)
      → (block_used s f ≡ (if ltb (f % 8) 4 then 1 else 0)) × (s.used_blocks ≡ s.max_blocks)
unfolding pmm_init block_used
pmm_init_lem mem_size memory f h =
    let e = memset_map-word (u32 (mem_size * 1024) / 4096 / 8) memory (f / 32) (omega arith) in
    let t = all_below_sound 32 _ (f % 32) memset_table (omega arith) in
    let m : f % 32 % 8 ≡ f % 8 = omega arith in (rw e ((==_iff _ _).0 t ∙ rw m), refl)
