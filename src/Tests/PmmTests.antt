-- ===== src/Tests/PmmTests.antt =====
-- The block allocator on a pool of 64 blocks.
use sea_star_os.Base.{
  ℕ, ◌≤◌, ◌≡◌, refl, ◌≢◌, ◌&&◌, some, arith, ltb, leb, ◌==◌, if◌then◌else◌, test_bit,
}
use sea_star_os.Kernel.Pmm.{
  Pmm, found, mmap_find_first_free, mmap_find_first_free_s, pmm_get_free_block_count,
  pmm_alloc_block, pmm_free_block, pmm_alloc_blocks, pmm_free_blocks, block_used,
}
use sea_star_os.Kernel.Pmm.Search.{IsFirstFree, mmap_find_first_free-IsFirstFree}
use sea_star_os.Kernel.Pmm.Alloc.{
  IsAllocated, pmm_alloc_block-IsAllocated, pmm_free_block-pmm_alloc_block,
  pmm_free_blocks-pmm_alloc_blocks,
}
use sea_star_os.Kernel.Pmm.Blind.{mmap_find_first_free_s_blind}

-- blocks 3 and 40 are free
abbrev pool_map : ℕ → ℕ
pool_map i = if i == 0 then 0xfffffff7 else if i == 1 then 0xfffffeff else 0xffffffff

abbrev pool : Pmm
pool = record { memory_size = 256; used_blocks = 62; max_blocks = 64; memory_map = pool_map }

pool_free_count : pmm_get_free_block_count pool ≢ 0
unfolding pmm_get_free_block_count
pool_free_count = omega arith

pool_block_3 : block_used pool 3 ≡ 0
unfolding block_used test_bit
pool_block_3 = refl

mmap_find_first_free-IsFirstFree_example :
    IsFirstFree (block_used pool) 0 2048 (mmap_find_first_free pool)
mmap_find_first_free-IsFirstFree_example = mmap_find_first_free-IsFirstFree pool

pmm_alloc_block-IsAllocated_example : (f : ℕ) × (f ≤ 3) × IsAllocated pool f (pmm_alloc_block pool)
pmm_alloc_block-IsAllocated_example =
    pmm_alloc_block-IsAllocated pool 3 pool_free_count (omega arith) (omega arith) pool_block_3

run_found : mmap_find_first_free_s pool 2 ≡ found 3
unfolding block_used test_bit
run_found =
    mmap_find_first_free_s_blind pool 2 (omega arith) refl refl refl refl (omega arith)
      (omega arith)

-- the first allocation, and the second after it
pool_allocation : (f : ℕ) × (f ≤ 3) × IsAllocated pool f (pmm_alloc_block pool)
pool_allocation =
    pmm_alloc_block-IsAllocated pool 3 pool_free_count (omega arith) (omega arith) pool_block_3

pmm_free_block-pmm_alloc_block_example :
    let (p, s') = pmm_alloc_block pool in
    ((g : ℕ) → block_used (pmm_free_block s' p) g ≡ block_used pool g)
    × ((pmm_free_block s' p).used_blocks ≡ pool.used_blocks)
pmm_free_block-pmm_alloc_block_example =
    pmm_free_block-pmm_alloc_block pool pool_allocation.0 (omega arith) pool_allocation.2

-- bits 0 to 2 of the first word are set, bit 3 is clear, and every block after it is used
mmap_find_first_free_s_blind_example : mmap_find_first_free_s pool 8 ≡ found 3
unfolding block_used test_bit
mmap_find_first_free_s_blind_example =
    mmap_find_first_free_s_blind pool 8 (omega arith) refl refl refl refl (omega arith)
      (omega arith)

pmm_free_blocks-pmm_alloc_blocks_example :
    (s' : Pmm) × (pmm_alloc_blocks pool 2 ≡ some (12288, s'))
    × ((f : ℕ) → block_used s' f ≡ (if leb 3 f && ltb f 5 then 1 else block_used pool f))
    × ((f : ℕ)
        → block_used (pmm_free_blocks s' 12288 2) f
          ≡ (if leb 3 f && ltb f 5 then 0 else block_used pool f))
    × (s'.used_blocks ≡ 64)
    × ((pmm_free_blocks s' 12288 2).used_blocks ≡ 62)
unfolding pmm_get_free_block_count
pmm_free_blocks-pmm_alloc_blocks_example =
    pmm_free_blocks-pmm_alloc_blocks pool 2 3 (omega arith) (omega arith) (omega arith) run_found
