-- ===== src/Kernel/Vmm/EntryLaws.antt =====
-- The frame and the attributes of an entry do not disturb each other.
use sea_star_os.Base.{
  ℕ, zero, suc, ◌+◌, ◌*◌, ◌/◌, ◌%◌, ◌^◌, ◌≤◌, ◌<◌, max, bit_and, bit_or, ◌≡◌, refl, true, ◌&&◌,
  arith, ltb, leb, ◌==◌, if◌then◌else◌, ==_iff, u8, not32, test_bit, test_bit-le, test_bit-or,
  test_bit-and, test_bit-pow, test_bit-complement, word_ext, bit_and-pow, bit_and-lt, bit_or-lt,
  pow-lt, test_bit-low, test_bit-shifted, test_bit_of_lt, all_below, all_below_sound,
}
use sea_star_os.Kernel.Vmm.Entries.{
  pt_entry_add_attrib, pt_entry_del_attrib, pt_entry_set_frame, pt_entry_is_present,
  pt_entry_is_writable, pt_entry_pfn, pte_frame, pte_present,
}

frame_table :
    all_below 32 (λ j. test_bit 0x7FFFF000 j == (if leb 12 j && ltb j 31 then 1 else 0)) ≡ true
unfolding all_below test_bit
frame_table = refl

frame_bit : (j : ℕ) → j < 32 → test_bit 0x7FFFF000 j ≡ (if leb 12 j && ltb j 31 then 1 else 0)
frame_bit j h = (==_iff _ _).0 (all_below_sound 32 _ j frame_table h)

-- pt_entry_set_frame takes bits 12 to 30 from the address; below and above them, bit 31
-- included, it adds the bits of the address to those of the entry.
pub test_bit-pt_entry_set_frame :
    (e addr j : ℕ)
    → j < 32
    → test_bit (pt_entry_set_frame e addr) j
      ≡ (if leb 12 j && ltb j 31 then test_bit addr j else max (test_bit e j) (test_bit addr j))
unfolding pt_entry_set_frame
test_bit-pt_entry_set_frame e addr j h = ground (
  arith,
  test_bit-or (bit_and e (not32 0x7FFFF000)) addr j,
  test_bit-and e (not32 0x7FFFF000) j,
  test_bit-complement 32 0x7FFFF000 j (omega arith) h,
  frame_bit j h,
  test_bit-le e j,
)

flag_bit : (e k : ℕ) → k < 8 → u8 (bit_and e (2 ^ k)) ≡ test_bit e k * 2 ^ k
flag_bit e k h = rw (bit_and-pow e k) (small (test_bit e k) (test_bit-le e k))
  where
    small : (b : ℕ) → b ≤ 1 → u8 (b * 2 ^ k) ≡ b * 2 ^ k
    small zero l = omega arith
    small (suc zero) l = omega (arith, pow-lt k 8 h)
    small (suc (suc b)) l = absurd (omega arith)

pub pt_entry_set_frame-lt :
    (e addr : ℕ) → e < 2 ^ 32 → addr < 2 ^ 32 → pt_entry_set_frame e addr < 2 ^ 32
unfolding pt_entry_set_frame
pt_entry_set_frame-lt e addr he ha = bit_or-lt 32 _ _ (bit_and-lt 32 _ _ he) ha

-- A page frame below 2 ^ 31 comes back from the entry that it is put in, whatever frame the entry
-- held, and the present and writable bits stay as they were. So does an address at 2 ^ 31 or
-- above, less its top bit.
pub pt_entry_pfn-pt_entry_set_frame :
    (e p : ℕ)
    → e < 2 ^ 32
    → p < 2 ^ 20
    → (pt_entry_pfn (pt_entry_set_frame e (p * 4096)) ≡ p % 2 ^ 19 * 4096)
      × (pt_entry_is_present (pt_entry_set_frame e (p * 4096)) ≡ pt_entry_is_present e)
      × (pt_entry_is_writable (pt_entry_set_frame e (p * 4096)) ≡ pt_entry_is_writable e)
unfolding pt_entry_pfn pt_entry_is_present pt_entry_is_writable
pt_entry_pfn-pt_entry_set_frame e p he hp = (
  word_ext 32 _ _ (bit_and-lt 32 _ _ (pt_entry_set_frame-lt e (p * 4096) he (omega arith)))
      (omega arith)
      (λ j l. ground (
        arith,
        test_bit-and (pt_entry_set_frame e (p * 4096)) pte_frame j,
        test_bit-pt_entry_set_frame e (p * 4096) j l,
        frame_bit j l,
        low j,
        test_bit-le (p * 4096) j,
        test_bit-shifted 12 (p % 2 ^ 19) j,
        test_bit_of_lt 31 (p % 2 ^ 19 * 4096) j,
      )),
  flag 0 (omega arith),
  flag 1 (omega arith),
)
  where
    flag :
        (k : ℕ)
        → k < 8
        → u8 (bit_and (pt_entry_set_frame e (p * 4096)) (2 ^ k)) ≡ u8 (bit_and e (2 ^ k))
    flag k l =
        rw
          (flag_bit _ k l, flag_bit e k l, test_bit-pt_entry_set_frame e (p * 4096) k (omega arith))
          (ground (arith, test_bit-shifted 12 p k))

    low : (j : ℕ) → j < 31 → test_bit (p * 4096) j ≡ test_bit (p % 2 ^ 19 * 4096) j
    low j l =
        let e : p * 4096 ≡ p / 2 ^ 19 * 2 ^ 31 + p % 2 ^ 19 * 4096 = omega arith in
        rw e (test_bit-low 31 (p / 2 ^ 19) (p % 2 ^ 19 * 4096) j l)

-- Attributes in the low twelve bits do not change the frame.
pub pt_entry_pfn-pt_entry_add_attrib :
    (e a : ℕ) → e < 2 ^ 32 → a < 2 ^ 12 → pt_entry_pfn (pt_entry_add_attrib e a) ≡ pt_entry_pfn e
unfolding pt_entry_pfn pt_entry_add_attrib
pt_entry_pfn-pt_entry_add_attrib e a he ha =
    word_ext 32 _ _ (bit_and-lt 32 _ _ (bit_or-lt 32 e a he (omega arith))) (bit_and-lt 32 _ _ he)
      (λ j l. ground (
        arith,
        test_bit-and (bit_or e a) pte_frame j,
        test_bit-and e pte_frame j,
        test_bit-or e a j,
        frame_bit j l,
        test_bit_of_lt 12 a j ha,
      ))

pub pt_entry_is_present-add : (e : ℕ) → pt_entry_is_present (pt_entry_add_attrib e pte_present) ≡ 1
unfolding pt_entry_is_present pt_entry_add_attrib
pt_entry_is_present-add e =
    rw (flag_bit (bit_or e 1) 0 (omega arith))
      (omega (arith, test_bit-or e 1 0, test_bit-le e 0, one_bit))
  where
    one_bit : test_bit 1 0 ≡ 1
    one_bit = test_bit-pow 0 0

pub pt_entry_is_present-del : (e : ℕ) → pt_entry_is_present (pt_entry_del_attrib e pte_present) ≡ 0
unfolding pt_entry_is_present pt_entry_del_attrib
pt_entry_is_present-del e = rw (flag_bit (bit_and e (not32 1)) 0 (omega arith)) (
    omega (
      arith,
      test_bit-and e (not32 1) 0,
      test_bit-complement 32 1 0 (omega arith) (omega arith),
      test_bit-pow 0 0,
    ))
