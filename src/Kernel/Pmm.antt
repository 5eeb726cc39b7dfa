-- ===== src/Kernel/Pmm.antt =====
-- Kernel/pmm.c: the physical memory manager, a bitmap of 4 KB blocks and a counter of used ones.
--
-- The bitmap is the raw memory at `_pmm_memory_map`, read as 32-bit words, so an index past its
-- end reads and writes what lies behind it, as in C. A pointer is its address, and 0 is NULL. An
-- `int` that is a block number or -1 is an option; block numbers stay below 2 ^ 31.
pub mod Bits
pub mod Counts
pub mod Search
pub mod Regions
pub mod Alloc
pub mod Ownership
pub mod Blind
use sea_star_os.Base.{
  ℕ, zero, suc, ◌+◌, ◌-◌, ◌*◌, ◌/◌, ◌%◌, ◌^◌, bit_and, bit_or, Bool, true, false, Option, none,
  some, ltb, ◌==◌, if◌then◌else◌, u8, u32, sub32, not32, update, test_bit,
}

pub record Pmm : Type 0 where
  pub memory_size : ℕ
  pub used_blocks : ℕ
  pub max_blocks : ℕ
  pub memory_map : ℕ → ℕ

abbrev pub pmm_block_size : ℕ
pmm_block_size = 4096

unfoldable pub mmap_set : Pmm → ℕ → Pmm
mmap_set s bit =
    let word = bit_or (s.memory_map (bit / 32)) (2 ^ (bit % 32)) in
    record s { memory_map = update s.memory_map (bit / 32) word }

pub mmap_unset : Pmm → ℕ → Pmm
mmap_unset s bit =
    let word = bit_and (s.memory_map (bit / 32)) (not32 (2 ^ (bit % 32))) in
    record s { memory_map = update s.memory_map (bit / 32) word }

-- The result is a uint8_t: the masked word is cut to its low byte.
unfoldable pub mmap_test : Pmm → ℕ → ℕ
mmap_test s bit = u8 (bit_and (s.memory_map (bit / 32)) (2 ^ (bit % 32)))

-- the `j` loop, with `left` rounds to go
unfoldable pub first_free_in : ℕ → ℕ → ℕ → Option ℕ
first_free_in zero w j = none
first_free_in (suc left) w j =
    let rest = first_free_in left w (j + 1) in if bit_and w (2 ^ j) == 0 then some j else rest

-- the `i` loop: one word a round, `pmm_get_block_count()` rounds
unfoldable pub first_free_from : ℕ → (ℕ → ℕ) → ℕ → Option ℕ
first_free_from zero map i = none
first_free_from (suc left) map i =
    let rest = first_free_from left map (i + 1) in
    if map i == 0xffffffff
    then rest
    else elim (first_free_in 32 (map i) 0) [ some j ↦ some (i * 4 * 8 + j) | none ↦ rest ]

unfoldable pub mmap_find_first_free : Pmm → Option ℕ
mmap_find_first_free s = first_free_from s.max_blocks s.memory_map 0

-- `undefined`: at j == 31 the start bit is negative, and C leaves the shift in `mmap_test` open.
pub data Found : Type 0 where
  found : ℕ → Found
  not_found undefined : Found

-- the `counter` loop, with the number of free bits seen
unfoldable pub run_is_free : ℕ → Pmm → ℕ → ℕ → ℕ → ℕ → Bool
run_is_free zero s size startbit counter free = false
run_is_free (suc left) s size startbit counter free =
    let free' = if mmap_test s (startbit + counter) == 0 then free + 1 else free in
    let rest = run_is_free left s size startbit (counter + 1) free' in
    if free' == size then true else rest

unfoldable pub first_run_in : ℕ → Pmm → ℕ → ℕ → ℕ → Found
first_run_in zero s size i j = not_found
first_run_in (suc left) s size i j =
    let rest = first_run_in left s size i (j + 1) in
    let hit = run_is_free (size + 1) s size (i * 32 + 2 ^ j) 0 0 in
    if bit_and (s.memory_map i) (2 ^ j) == 0
    then if j == 31 then undefined else if hit then found (i * 4 * 8 + j) else rest
    else rest

unfoldable pub first_run_from : ℕ → Pmm → ℕ → ℕ → Found
first_run_from zero s size i = not_found
first_run_from (suc left) s size i =
    let rest = first_run_from left s size (i + 1) in
    if s.memory_map i == 0xffffffff
    then rest
    else elim (first_run_in 32 s size i 0) [ not_found ↦ rest | r ↦ r ]

unfoldable pub mmap_find_first_free_s : Pmm → ℕ → Found
mmap_find_first_free_s s size =
    if size == 0
    then not_found
    else if size == 1
    then elim (mmap_find_first_free s) [ some f ↦ found f | none ↦ not_found ]
    else first_run_from s.max_blocks s size 0

-- `memset(_pmm_memory_map, 0xf, n)`, seen word by word on a little-endian machine
abbrev byte_at : ℕ → ℕ → ℕ
byte_at w k = w / 256 ^ k % 256

abbrev memset_byte : ℕ → (ℕ → ℕ) → ℕ → ℕ → ℕ
memset_byte n map i k = if ltb (4 * i + k) n then 0xf else byte_at (map i) k

pub memset_map : ℕ → (ℕ → ℕ) → ℕ → ℕ
memset_map n map i =
    memset_byte n map i 0
    + memset_byte n map i 1 * 256
    + memset_byte n map i 2 * 65536
    + memset_byte n map i 3 * 16777216

-- `memory` is what stands at the address `bitmap` before the call.
pub pmm_init : ℕ → (ℕ → ℕ) → Pmm
pmm_init mem_size memory =
    let max = u32 (mem_size * 1024) / pmm_block_size in
    record {
      memory_size = mem_size;
      used_blocks = max;
      max_blocks = max;
      memory_map = memset_map (max / 8) memory;
    }

-- the loop of `pmm_init_region`: `blocks >= 0` makes `blocks + 1` rounds
pub unset_region : ℕ → Pmm → ℕ → Pmm
unset_region zero s align = s
unset_region (suc left) s align =
    let s' = mmap_unset s align in
    unset_region left (record s' { used_blocks = sub32 s'.used_blocks 1 }) (align + 1)

unfoldable pub pmm_init_region : Pmm → ℕ → ℕ → Pmm
pmm_init_region s base size =
    mmap_set (unset_region (size / pmm_block_size + 1) s (base / pmm_block_size)) 0

pub set_region : ℕ → Pmm → ℕ → Pmm
set_region zero s align = s
set_region (suc left) s align =
    let s' = mmap_set s align in
    set_region left (record s' { used_blocks = u32 (s'.used_blocks + 1) }) (align + 1)

unfoldable pub pmm_deinit_region : Pmm → ℕ → ℕ → Pmm
pmm_deinit_region s base size = set_region (size / pmm_block_size + 1) s (base / pmm_block_size)

unfoldable pub pmm_get_free_block_count : Pmm → ℕ
pmm_get_free_block_count s = sub32 s.max_blocks s.used_blocks

unfoldable pub pmm_alloc_block : Pmm → ℕ × Pmm
pmm_alloc_block s =
    if pmm_get_free_block_count s == 0 then (0, s) else elim (mmap_find_first_free s) [
      | none ↦ (0, s)
      | some frame ↦
          let s' = mmap_set s frame in
          (u32 (frame * pmm_block_size), record s' { used_blocks = u32 (s'.used_blocks + 1) })
    ]

pub pmm_free_block : Pmm → ℕ → Pmm
pmm_free_block s p =
    let s' = mmap_unset s (p / pmm_block_size) in record s' { used_blocks = sub32 s'.used_blocks 1 }

-- the loops of `pmm_alloc_blocks` and `pmm_free_blocks`
unfoldable pub set_blocks : ℕ → Pmm → ℕ → Pmm
set_blocks zero s frame = s
set_blocks (suc left) s frame = set_blocks left (mmap_set s frame) (frame + 1)

pub unset_blocks : ℕ → Pmm → ℕ → Pmm
unset_blocks zero s frame = s
unset_blocks (suc left) s frame = unset_blocks left (mmap_unset s frame) (frame + 1)

-- `none` where the search is undefined.
unfoldable pub pmm_alloc_blocks : Pmm → ℕ → Option (ℕ × Pmm)
pmm_alloc_blocks s size =
    if ltb (pmm_get_free_block_count s) size
    then some (0, s)
    else elim (mmap_find_first_free_s s size) [
      | undefined ↦ none
      | not_found ↦ some (0, s)
      | found frame ↦
          let s' = set_blocks size s frame in
          some
            (u32 (frame * pmm_block_size), record s' { used_blocks = u32 (s'.used_blocks + size) })
    ]

pub pmm_free_blocks : Pmm → ℕ → ℕ → Pmm
pmm_free_blocks s p size =
    let s' = unset_blocks size s (p / pmm_block_size) in
    record s' { used_blocks = sub32 s'.used_blocks size }

-- Block `f` is in use: 1, or free: 0.
unfoldable pub block_used : Pmm → ℕ → ℕ
block_used s f = test_bit (s.memory_map (f / 32)) (f % 32)
