-- ===== src/Tests/OwnershipTests.antt =====
-- An allocation behind another one, with block 5 reserved.
use sea_star_os.Base.{
  ℕ, ◌/◌, ◌≡◌, refl, Bool, true, false, arith, ◌==◌, if◌then◌else◌, ==_iff, update, test_bit,
}
use sea_star_os.Kernel.Pmm.{
  Pmm, pmm_get_free_block_count, pmm_alloc_block, mmap_find_first_free, first_free_from,
  first_free_in, mmap_set, block_used,
}
use sea_star_os.Kernel.Pmm.Ownership.{Owned, alloc, here, next, pmm_alloc_block-fresh}

-- blocks 3 and 40 are free
abbrev pool : Pmm
pool = record {
  memory_size = 256;
  used_blocks = 62;
  max_blocks = 64;
  memory_map = λ i. if i == 0 then 0xfffffff7 else if i == 1 then 0xfffffeff else 0xffffffff;
}

abbrev reserved : ℕ → Bool
reserved g = g == 5

pool_reserved : (g : ℕ) → reserved g ≡ true → block_used pool g ≡ 1
unfolding block_used test_bit
pool_reserved g e = let at : g ≡ 5 = (==_iff _ _).0 e in rw at refl

first : (pmm_alloc_block pool).0 ≡ 12288
unfolding pmm_alloc_block pmm_get_free_block_count mmap_find_first_free first_free_from
    first_free_in
first = refl

second : (pmm_alloc_block (pmm_alloc_block pool).1).0 ≡ 163840
unfolding pmm_alloc_block pmm_get_free_block_count mmap_find_first_free first_free_from
    first_free_in mmap_set update
second = refl

abbrev fresh_pool : Owned
fresh_pool = record { pmm = pool; held = λ g. false }

abbrev one_block : Owned
one_block = record {
  pmm = (pmm_alloc_block pool).1;
  held = λ g. if g == (pmm_alloc_block pool).0 / 4096 then true else false;
}

pmm_alloc_block-fresh_example :
    (one_block.held ((pmm_alloc_block one_block.pmm).0 / 4096) ≡ false)
    × (reserved ((pmm_alloc_block one_block.pmm).0 / 4096) ≡ false)
pmm_alloc_block-fresh_example =
    pmm_alloc_block-fresh reserved pool one_block (omega arith) pool_reserved
      (next here (alloc fresh_pool (omega (arith, first)))) (omega (arith, second))
