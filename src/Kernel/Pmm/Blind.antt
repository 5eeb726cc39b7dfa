-- ===== src/Kernel/Pmm/Blind.antt =====
-- What the cut result of mmap_test does to the search for several blocks.
use sea_star_os.Base.{
  ℕ, zero, suc, ◌+◌, ◌*◌, ◌^◌, ◌≤◌, ◌<◌, ◌≡◌, inl, inr, true, false, arith, ◌==◌, ==_iff,
  Bool-cases, test_bit, test_bit-zero, test_bit-complement, bit_and-pow,
}
use sea_star_os.Kernel.Pmm.{
  Pmm, found, mmap_test, run_is_free, first_run_in, first_run_from, mmap_find_first_free_s,
  block_used,
}
use sea_star_os.Kernel.Pmm.Bits.{mmap_test_lem}

run_is_free_blind :
    (left : ℕ) (s : Pmm) (size start c : ℕ)
    → c + left ≡ size + 1
    → c < size
    → ((d : ℕ) → d < size → mmap_test s (start + d) ≡ 0)
    → run_is_free left s size start c c ≡ true
unfolding run_is_free
run_is_free_blind zero s size start c e l h = absurd (omega arith)
run_is_free_blind (suc left) s size start c e l h = elim (Bool-cases (c + 1 == size)) [
  | inl t ↦ rw (h c l, t)
  | inr t ↦
      rw (h c l, t) (run_is_free_blind left s size start (c + 1) (omega arith) (ground arith) h)
]

-- The search takes the first block of the run as its place in the word, but tests from the start
-- bit i * 32 + 2 ^ j on, in the bits that mmap_test cannot see. So where the first word has its
-- bits 0 to 2 set and bit 3 clear, a run of 2 to 24 blocks is found at block 3, whether the blocks
-- after it are used or not.
pub mmap_find_first_free_s_blind :
    (s : Pmm) (size : ℕ)
    → 0 < s.max_blocks
    → block_used s 0 ≡ 1
    → block_used s 1 ≡ 1
    → block_used s 2 ≡ 1
    → block_used s 3 ≡ 0
    → 2 ≤ size
    → size ≤ 24
    → mmap_find_first_free_s s size ≡ found 3
unfolding mmap_find_first_free_s block_used
mmap_find_first_free_s_blind s size m b0 b1 b2 b3 lo hi = ground (arith, from_first s.max_blocks)
  where
    blind : (d : ℕ) → d < size → mmap_test s (8 + d) ≡ 0
    blind d l = ground (arith, mmap_test_lem s (8 + d))

    hit : run_is_free (size + 1) s size (0 * 32 + 2 ^ 3) 0 0 ≡ true
    hit = run_is_free_blind (size + 1) s size 8 0 (omega arith) (omega arith) blind

    in_word : first_run_in 32 s size 0 0 ≡ found 3
    in_word =
        unfold first_run_in in
        ground (
          arith,
          bit_and-pow (s.memory_map 0) 0,
          bit_and-pow (s.memory_map 0) 1,
          bit_and-pow (s.memory_map 0) 2,
          bit_and-pow (s.memory_map 0) 3,
          hit,
        )

    not_full : (s.memory_map 0 == 0xffffffff) ≡ false
    not_full = elim (Bool-cases (s.memory_map 0 == 0xffffffff)) [
      | inl t ↦
          let e : s.memory_map 0 ≡ 0xffffffff = (==_iff _ _).0 t in
          let b : test_bit 0xffffffff 3 ≡ 0 = rw e at b3 in
          absurd
            (omega (arith, test_bit-complement 32 0 3 (omega arith) (omega arith), test_bit-zero 3))
      | inr t ↦ t
    ]

    from_first : (n : ℕ) → 0 < n → first_run_from n s size 0 ≡ found 3
    from_first zero h = elim h [ ]
    from_first (suc n) h = unfold first_run_from in rw (not_full, in_word)
