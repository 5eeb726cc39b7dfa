-- ===== src/Kernel/Pmm/Ownership.antt =====
-- Runs of allocations and releases, and who owns a block.
use sea_star_os.Base.{
  ℕ, ◌*◌, ◌/◌, ◌^◌, ◌≤◌, ◌≡◌, refl, ap, ◌∙◌, ◌≢◌, inl, inr, Bool, true, false, none, arith, ◌==◌,
  if◌then◌else◌, Bool-cases, Option-cases,
}
use mathlib.Core.Bool.{false≢true}
use sea_star_os.Kernel.Pmm.{
  Pmm, mmap_unset, pmm_alloc_block, pmm_free_block, pmm_get_free_block_count, mmap_find_first_free,
  block_used,
}
use sea_star_os.Kernel.Pmm.Bits.{block_used-count, block_used-mmap_unset}
use sea_star_os.Kernel.Pmm.Search.{mmap_find_first_free-IsFirstFree}
use sea_star_os.Kernel.Pmm.Alloc.{IsAllocated, pmm_alloc_block-IsAllocated}

-- the allocator, and the blocks that its callers hold
pub record Owned : Type 0 where
  pub pmm : Pmm
  pub held : ℕ → Bool

abbrev pub mark : (ℕ → Bool) → ℕ → Bool → ℕ → Bool
mark held f b g = if g == f then b else held g

-- A caller gets a block that is not NULL, or gives back a block that is held.
pub data Step : Owned → Owned → Type 0 where
  alloc :
      (o : Owned)
      → (pmm_alloc_block o.pmm).0 ≢ 0
      → Step o (record {
        pmm = (pmm_alloc_block o.pmm).1;
        held = mark o.held ((pmm_alloc_block o.pmm).0 / 4096) true;
      })
  free :
      (o : Owned) (f : ℕ)
      → o.held f ≡ true
      → Step o (record { pmm = pmm_free_block o.pmm (f * 4096); held = mark o.held f false })

pub data Reach (o : Owned) : Owned → Type 0 where
  here : Reach o o
  next : {p q : Owned} → Reach o p → Step p q → Reach o q

-- The blocks that are held and those that are reserved are used, and no block is both.
record IsOwned (reserved : ℕ → Bool) (o : Owned) : Type 0 where
  bounded : o.pmm.max_blocks ≤ 2 ^ 15
  held_used : (g : ℕ) → o.held g ≡ true → block_used o.pmm g ≡ 1
  reserved_used : (g : ℕ) → reserved g ≡ true → block_used o.pmm g ≡ 1
  apart : (g : ℕ) → reserved g ≡ true → o.held g ≡ false

alloc_none : (s : Pmm) → (pmm_get_free_block_count s == 0) ≡ true → (pmm_alloc_block s).0 ≡ 0
unfolding pmm_alloc_block
alloc_none s e = rw e refl

alloc_full : (s : Pmm) → mmap_find_first_free s ≡ none → (pmm_alloc_block s).0 ≡ 0
unfolding pmm_alloc_block
alloc_full s e = elim (Bool-cases (pmm_get_free_block_count s == 0)) [
  | inl t ↦ rw t refl
  | inr t ↦ rw (t, e) refl
]

alloc-IsAllocated :
    (s : Pmm)
    → s.max_blocks ≤ 2 ^ 15
    → (pmm_alloc_block s).0 ≢ 0
    → (f : ℕ) × IsAllocated s f (pmm_alloc_block s)
alloc-IsAllocated s b ne = elim (Bool-cases (pmm_get_free_block_count s == 0)) [
  | inl t ↦ absurd (ne (alloc_none s t))
  | inr t ↦ elim (Option-cases (mmap_find_first_free s)) [
    | inl e ↦ absurd (ne (alloc_full s e))
    | inr (f, e) ↦
        (let h = mmap_find_first_free-IsFirstFree s in
          let (lo, hi, unused, lowest) = rw e at h in
          let (g, le, a) =
            pmm_alloc_block-IsAllocated s f (ground arith) hi (omega (arith, hi, b)) unused in
          (g, a))
  ]
]

free_used :
    (s : Pmm) (f g : ℕ)
    → block_used (pmm_free_block s (f * 4096)) g ≡ (if g == f then 0 else block_used s g)
unfolding pmm_free_block
free_used s f g =
    let z : f * 4096 / 4096 ≡ f = omega arith in
    block_used-count (mmap_unset s (f * 4096 / 4096)) _ g
    ∙ block_used-mmap_unset s (f * 4096 / 4096) g
    ∙ ap (λ k. if g == k then 0 else block_used s g) z

free_sized : (s : Pmm) (p : ℕ) → (pmm_free_block s p).max_blocks ≡ s.max_blocks
unfolding pmm_free_block mmap_unset
free_sized s p = refl

Step-IsOwned :
    (reserved : ℕ → Bool) {o p : Owned} → Step o p → IsOwned reserved o → IsOwned reserved p
Step-IsOwned reserved (alloc o ne) h =
    let (f, a) = alloc-IsAllocated o.pmm h.bounded ne in
    let at : (pmm_alloc_block o.pmm).0 / 4096 ≡ f = omega (arith, a.address) in
    record {
      bounded = omega (arith, a.sized, h.bounded);
      held_used = λ g q. ground (arith, a.marked g, h.held_used g, at, q);
      reserved_used = λ g q. ground (arith, a.marked g, h.reserved_used g q);
      apart = λ g q. ground (arith, h.reserved_used g q, h.apart g q, a.was_free, at);
    }
Step-IsOwned reserved (free o f held) h = record {
  bounded = omega (arith, free_sized o.pmm (f * 4096), h.bounded);
  held_used = λ g q. ground (arith, free_used o.pmm f g, h.held_used g, q);
  reserved_used =
      λ g q. ground (arith, free_used o.pmm f g, h.reserved_used g q, h.apart g q, held);
  apart = λ g q. ground (arith, h.apart g q);
}

Reach-IsOwned :
    (reserved : ℕ → Bool) {o p : Owned} → IsOwned reserved o → Reach o p → IsOwned reserved p
Reach-IsOwned reserved h here = h
Reach-IsOwned reserved h (next r s) = Step-IsOwned reserved s (Reach-IsOwned reserved h r)

module _ {reserved : ℕ → Bool} {o : Owned} where
  unheld : (f : ℕ) → IsOwned reserved o → block_used o.pmm f ≡ 0 → o.held f ≡ false
  unheld f h z = elim (Bool-cases (o.held f)) [
    | inl t ↦ absurd (omega (arith, h.held_used f t, z))
    | inr t ↦ t
  ]

  unreserved : (f : ℕ) → IsOwned reserved o → block_used o.pmm f ≡ 0 → reserved f ≡ false
  unreserved f h z = elim (Bool-cases (reserved f)) [
    | inl t ↦ absurd (omega (arith, h.reserved_used f t, z))
    | inr t ↦ t
  ]

-- Whatever blocks its callers have got and given back before, pmm_alloc_block never hands out a block
-- that a caller holds, and never one of the reserved blocks: these are used at the beginning, when no
-- block is held, and the bitmap counts 2 ^ 15 blocks at most.
pub pmm_alloc_block-fresh :
    (reserved : ℕ → Bool) (s : Pmm) (o : Owned)
    → s.max_blocks ≤ 2 ^ 15
    → ((g : ℕ) → reserved g ≡ true → block_used s g ≡ 1)
    → Reach (record { pmm = s; held = λ g. false }) o
    → (pmm_alloc_block o.pmm).0 ≢ 0
    → (o.held ((pmm_alloc_block o.pmm).0 / 4096) ≡ false)
      × (reserved ((pmm_alloc_block o.pmm).0 / 4096) ≡ false)
pmm_alloc_block-fresh reserved s o b used r ne =
    let begin : IsOwned reserved (record { pmm = s; held = λ g. false }) = record {
      bounded = b;
      held_used = λ g q. absurd (false≢true q);
      reserved_used = used;
      apart = λ g q. refl;
    } in
    let h = Reach-IsOwned reserved begin r in
    let (f, a) = alloc-IsAllocated o.pmm h.bounded ne in
    let at : (pmm_alloc_block o.pmm).0 / 4096 ≡ f = omega (arith, a.address) in
    rw at (unheld f h a.was_free, unreserved f h a.was_free)
