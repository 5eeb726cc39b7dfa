-- ===== src/Kernel/Pmm/Alloc.antt =====
-- Allocation and release of blocks.
use native.Mathlib.Decide.{dec_le}
use sea_star_os.Base.{
  ℕ, zero, suc, ◌+◌, ◌*◌, ◌/◌, ◌^◌, ◌≤◌, ◌<◌, ◌≡◌, refl, ◌∙◌, ◌≢◌, ◌⊎◌, inl, inr, ◌&&◌, Option,
  none, some, arith, ltb, leb, ◌==◌, if◌then◌else◌, u32, sub32,
}
use sea_star_os.Kernel.Pmm.{
  Pmm, found, mmap_set, mmap_unset, mmap_find_first_free, mmap_find_first_free_s, set_blocks,
  unset_blocks, pmm_get_free_block_count, pmm_alloc_block, pmm_free_block, pmm_alloc_blocks,
  pmm_free_blocks, block_used,
}
use sea_star_os.Kernel.Pmm.Bits.{
  count, block_used-count, block_used-mmap_set, block_used-mmap_unset,
}
use sea_star_os.Kernel.Pmm.Search.{IsFirstFree, mmap_find_first_free-IsFirstFree}

-- What an allocation of the block `f` gives: its address, that block used and no other changed,
-- and one more block counted.
pub record IsAllocated (s : Pmm) (f : ℕ) (out : ℕ × Pmm) : Type 0 where
  pub was_free : block_used s f ≡ 0
  pub address : out.0 ≡ f * 4096
  pub marked : (g : ℕ) → block_used out.1 g ≡ (if g == f then 1 else block_used s g)
  pub counted : out.1.used_blocks ≡ u32 (s.used_blocks + 1)
  pub sized : out.1.max_blocks ≡ s.max_blocks

some_of_free :
    (used : ℕ → ℕ) (hi k : ℕ) (r : Option ℕ)
    → IsFirstFree used 0 hi r
    → k < hi
    → used k ≡ 0
    → (f : ℕ) × (r ≡ some f) × (f ≤ k) × (used f ≡ 0)
some_of_free used hi k none h l e = absurd (omega (arith, h k (omega arith) l, e))
some_of_free used hi k (some f) (p0, p1, p2, p3) l e = elim (dec_le f k) [
  | yes le ↦ (f, refl, le, p2)
  | no gt ↦ absurd (omega (arith, p3 k (omega arith) (omega arith), e))
]

alloc_at :
    (s : Pmm) (f : ℕ)
    → pmm_get_free_block_count s ≢ 0
    → mmap_find_first_free s ≡ some f
    → pmm_alloc_block s ≡ (u32 (f * 4096), count (mmap_set s f) (u32 (s.used_blocks + 1)))
unfolding pmm_alloc_block mmap_set
alloc_at s f c e = ground arith

-- Where the counter leaves a block and some block `k` of the scanned range, below 2 ^ 20, is free,
-- pmm_alloc_block hands out a free block, at or below `k`.
pub pmm_alloc_block-IsAllocated :
    (s : Pmm) (k : ℕ)
    → pmm_get_free_block_count s ≢ 0
    → k < 32 * s.max_blocks
    → k < 2 ^ 20
    → block_used s k ≡ 0
    → (f : ℕ) × (f ≤ k) × IsAllocated s f (pmm_alloc_block s)
pmm_alloc_block-IsAllocated s k c l b e =
    let (f, found_it, le, free) =
      some_of_free (block_used s) (32 * s.max_blocks) k (mmap_find_first_free s)
        (mmap_find_first_free-IsFirstFree s) l e in
    (
      f,
      le,
      rw (alloc_at s f c found_it) (record {
        was_free = free;
        address = omega arith;
        marked = λ g.
            block_used-count (mmap_set s f) (u32 (s.used_blocks + 1)) g ∙ block_used-mmap_set s f g;
        counted = refl;
        sized = unfold mmap_set in refl;
      }),
    )

-- Where the counter leaves no block, or every scanned block is used, pmm_alloc_block returns NULL
-- and changes nothing.
pub pmm_alloc_block-exhausted :
    (s : Pmm)
    → ((pmm_get_free_block_count s ≡ 0) ⊎ ((f : ℕ) → f < 32 * s.max_blocks → block_used s f ≡ 1))
    → pmm_alloc_block s ≡ (0, s)
unfolding pmm_alloc_block
pmm_alloc_block-exhausted s (inl c) = ground arith
pmm_alloc_block-exhausted s (inr all) =
    let e =
      none_of_used (block_used s) (32 * s.max_blocks) (mmap_find_first_free s)
        (mmap_find_first_free-IsFirstFree s) all in
    ground (arith, e)
  where
    none_of_used :
        (used : ℕ → ℕ) (hi : ℕ) (r : Option ℕ)
        → IsFirstFree used 0 hi r
        → ((f : ℕ) → f < hi → used f ≡ 1)
        → r ≡ none
    none_of_used used hi none h all = refl
    none_of_used used hi (some f) (p0, p1, p2, p3) all = absurd (omega (arith, all f p1))

-- Two allocations in a row hand out different addresses.
pub pmm_alloc_block_distinct :
    (s : Pmm) (f g : ℕ)
    → IsAllocated s f (pmm_alloc_block s)
    → IsAllocated (pmm_alloc_block s).1 g (pmm_alloc_block (pmm_alloc_block s).1)
    → (pmm_alloc_block s).0 ≢ (pmm_alloc_block (pmm_alloc_block s).1).0
pmm_alloc_block_distinct s f g a b =
    λ e. ground (arith, a.marked g, b.was_free, a.address, b.address)

-- Freeing the block that an allocation gave restores the bitmap and the counter.
pub pmm_free_block-pmm_alloc_block :
    (s : Pmm) (f : ℕ)
    → s.used_blocks < 2 ^ 32
    → IsAllocated s f (pmm_alloc_block s)
    → let (p, s') = pmm_alloc_block s in
      ((g : ℕ) → block_used (pmm_free_block s' p) g ≡ block_used s g)
      × ((pmm_free_block s' p).used_blocks ≡ s.used_blocks)
unfolding pmm_free_block
pmm_free_block-pmm_alloc_block s f h a =
    let (p, s') = pmm_alloc_block s in
    let d : p / 4096 ≡ f = omega (arith, a.address) in
    (
      λ g. rw d (
          ground (
            arith,
            block_used-count (mmap_unset s' f) (sub32 (mmap_unset s' f).used_blocks 1) g,
            block_used-mmap_unset s' f g,
            a.marked g,
            a.was_free,
          )),
      unfold mmap_unset in omega (arith, a.counted),
    )

block_used-set_blocks :
    (n : ℕ) (s : Pmm) (a f : ℕ)
    → block_used (set_blocks n s a) f ≡ (if leb a f && ltb f (a + n) then 1 else block_used s f)
unfolding set_blocks
block_used-set_blocks zero s a f = ground arith
block_used-set_blocks (suc n) s a f =
    ground (arith, block_used-set_blocks n (mmap_set s a) (a + 1) f, block_used-mmap_set s a f)

block_used-unset_blocks :
    (n : ℕ) (s : Pmm) (a f : ℕ)
    → block_used (unset_blocks n s a) f ≡ (if leb a f && ltb f (a + n) then 0 else block_used s f)
unfolding unset_blocks
block_used-unset_blocks zero s a f = ground arith
block_used-unset_blocks (suc n) s a f =
    ground
      (arith, block_used-unset_blocks n (mmap_unset s a) (a + 1) f, block_used-mmap_unset s a f)

used_blocks-set_blocks : (n : ℕ) (s : Pmm) (a : ℕ) → (set_blocks n s a).used_blocks ≡ s.used_blocks
unfolding set_blocks mmap_set
used_blocks-set_blocks zero s a = refl
used_blocks-set_blocks (suc n) s a = used_blocks-set_blocks n _ (a + 1)

used_blocks-unset_blocks :
    (n : ℕ) (s : Pmm) (a : ℕ) → (unset_blocks n s a).used_blocks ≡ s.used_blocks
unfolding unset_blocks mmap_unset
used_blocks-unset_blocks zero s a = refl
used_blocks-unset_blocks (suc n) s a = used_blocks-unset_blocks n _ (a + 1)

-- Where the search answers `frame`, pmm_alloc_blocks returns its address, marks `size` blocks from
-- it on and no other, and adds `size` to the counter; pmm_free_blocks of that address and size then
-- frees those blocks, changes no other, and gives the counter back.
pub pmm_free_blocks-pmm_alloc_blocks :
    (s : Pmm) (size frame : ℕ)
    → s.used_blocks < 2 ^ 32
    → size ≤ pmm_get_free_block_count s
    → frame < 2 ^ 20
    → mmap_find_first_free_s s size ≡ found frame
    → (s' : Pmm) × (pmm_alloc_blocks s size ≡ some (frame * 4096, s'))
      × ((f : ℕ)
          → block_used s' f ≡ (if leb frame f && ltb f (frame + size) then 1 else block_used s f))
      × ((f : ℕ)
          → block_used (pmm_free_blocks s' (frame * 4096) size) f
            ≡ (if leb frame f && ltb f (frame + size) then 0 else block_used s f))
      × (s'.used_blocks ≡ u32 (s.used_blocks + size))
      × ((pmm_free_blocks s' (frame * 4096) size).used_blocks ≡ s.used_blocks)
unfolding pmm_alloc_blocks pmm_free_blocks
pmm_free_blocks-pmm_alloc_blocks s size frame h l b e =
    let t = set_blocks size s frame in
    let s' = count t (u32 (t.used_blocks + size)) in
    let d : frame * 4096 / 4096 ≡ frame = omega arith in
    let marked = λ (f : ℕ).
      block_used-count t (u32 (t.used_blocks + size)) f ∙ block_used-set_blocks size s frame f in
    let v = unset_blocks size s' frame in
    (
      s',
      ground arith,
      marked,
      λ f. rw d (
          ground (
            arith,
            block_used-count v (sub32 v.used_blocks size) f,
            block_used-unset_blocks size s' frame f,
            marked f,
          )),
      rw used_blocks-set_blocks,
      rw (d, used_blocks-unset_blocks size s' frame, used_blocks-set_blocks size s frame)
          (omega arith),
    )
