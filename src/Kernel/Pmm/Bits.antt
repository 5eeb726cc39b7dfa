-- ===== src/Kernel/Pmm/Bits.antt =====
-- mmap_set, mmap_unset and mmap_test, block by block.
use sea_star_os.Base.{
  ℕ, ◌*◌, ◌/◌, ◌%◌, ◌^◌, ◌≤◌, ◌≡◌, refl, ◌⊎◌, inl, inr, true, arith, ltb, ◌==◌, if◌then◌else◌, u8,
  not32, update, test_bit, test_bit-le, test_bit-or, test_bit-and, test_bit-pow,
  test_bit-complement, bit_and-pow, pow-lt, all_below, all_below_sound,
}
use sea_star_os.Kernel.Pmm.{Pmm, mmap_set, mmap_unset, mmap_test, block_used}

-- Setting a bit marks that block and no other.
pub block_used-mmap_set :
    (s : Pmm) (b f : ℕ) → block_used (mmap_set s b) f ≡ (if f == b then 1 else block_used s f)
unfolding block_used mmap_set update
block_used-mmap_set s b f = ground (
  arith,
  test_bit-or (s.memory_map (b / 32)) (2 ^ (b % 32)) (f % 32),
  test_bit-pow (b % 32) (f % 32),
  test_bit-le (s.memory_map (f / 32)) (f % 32),
)

-- Clearing a bit frees that block and no other.
pub block_used-mmap_unset :
    (s : Pmm) (b f : ℕ) → block_used (mmap_unset s b) f ≡ (if f == b then 0 else block_used s f)
unfolding block_used mmap_unset update
block_used-mmap_unset s b f = ground (
  arith,
  test_bit-and (s.memory_map (b / 32)) (not32 (2 ^ (b % 32))) (f % 32),
  test_bit-complement 32 (2 ^ (b % 32)) (f % 32) (pow-lt (b % 32) 32 (omega arith)) (omega arith),
  test_bit-pow (b % 32) (f % 32),
  test_bit-le (s.memory_map (f / 32)) (f % 32),
)

-- The counter is no part of the bitmap.
abbrev pub count : Pmm → ℕ → Pmm
count s u = record s { used_blocks = u }

pub block_used-count : (s : Pmm) (u f : ℕ) → block_used (count s u) f ≡ block_used s f
unfolding block_used
block_used-count s u f = refl

narrow_table : all_below 32 (λ k. u8 (2 ^ k) == (if ltb k 8 then 2 ^ k else 0)) ≡ true
unfolding all_below
narrow_table = refl

-- The result of mmap_test is cut to eight bits: it tells a used block from a free one only where
-- the block's place in its word is below 8, and is 0 for every other block.
pub mmap_test_lem :
    (s : Pmm) (b : ℕ)
    → mmap_test s b ≡ (if ltb (b % 32) 8 then block_used s b * 2 ^ (b % 32) else 0)
unfolding mmap_test block_used
mmap_test_lem s b = elim (bit_cases (test_bit (s.memory_map (b / 32)) (b % 32)) (test_bit-le _ _)) [
  | inl e ↦ rw (bit_and-pow (s.memory_map (b / 32)) (b % 32), e) (ground arith)
  | inr e ↦
      let t = all_below_sound 32 _ (b % 32) narrow_table (omega arith) in
      rw (bit_and-pow (s.memory_map (b / 32)) (b % 32), e) (ground (arith, t))
]
  where
    bit_cases : (b : ℕ) → b ≤ 1 → (b ≡ 0) ⊎ (b ≡ 1)
    bit_cases b h = omega arith
