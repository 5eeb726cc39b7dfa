-- ===== src/Kernel/Vmm/Pages.antt =====
-- vmm_alloc_page and vmm_free_page.
use sea_star_os.Base.{ℕ, ◌*◌, ◌^◌, ◌<◌, ◌≡◌, refl, arith}
use sea_star_os.Kernel.Pmm.{Pmm, pmm_alloc_block, pmm_free_block, block_used}
use sea_star_os.Kernel.Pmm.Alloc.{IsAllocated, pmm_free_block-pmm_alloc_block}
use sea_star_os.Kernel.Vmm.{vmm_alloc_page, vmm_free_page}
use sea_star_os.Kernel.Vmm.Entries.{
  pt_entry_add_attrib, pt_entry_del_attrib, pt_entry_set_frame, pt_entry_is_present, pt_entry_pfn,
  pte_present,
}
use sea_star_os.Kernel.Vmm.EntryLaws.{
  pt_entry_pfn-pt_entry_set_frame, pt_entry_pfn-pt_entry_add_attrib, pt_entry_is_present-add,
  pt_entry_is_present-del, pt_entry_set_frame-lt,
}

abbrev page_of : ℕ → ℕ → ℕ
page_of e f = pt_entry_add_attrib (pt_entry_set_frame e (f * 4096)) pte_present

page_frame :
    (e f : ℕ)
    → e < 2 ^ 32
    → f < 2 ^ 19
    → pt_entry_pfn (pt_entry_add_attrib (pt_entry_set_frame e (f * 4096)) pte_present) ≡ f * 4096
page_frame e f he hf = omega (
  arith,
  pt_entry_pfn-pt_entry_add_attrib (pt_entry_set_frame e (f * 4096)) 1
      (pt_entry_set_frame-lt e (f * 4096) he (omega arith)) (omega arith),
  (pt_entry_pfn-pt_entry_set_frame e f he (omega arith)).0,
)

-- Where the allocator gives a block `f` other than 0 and below 2 ^ 31 bytes, vmm_alloc_page
-- succeeds with a present entry for that block; vmm_free_page of that entry clears the present
-- bit and gives the block back, with every block and the counter as before.
pub vmm_free_page-vmm_alloc_page :
    (s : Pmm) (e f : ℕ)
    → e < 2 ^ 32
    → s.used_blocks < 2 ^ 32
    → 0 < f
    → f < 2 ^ 19
    → IsAllocated s f (pmm_alloc_block s)
    → let (status, page, s') = vmm_alloc_page s e in
      let (page', s'') = vmm_free_page s' page in
      (status ≡ 1)
      × (pt_entry_is_present page ≡ 1)
      × (pt_entry_pfn page ≡ f * 4096)
      × (pt_entry_is_present page' ≡ 0)
      × ((g : ℕ) → block_used s'' g ≡ block_used s g)
      × (s''.used_blocks ≡ s.used_blocks)
vmm_free_page-vmm_alloc_page s e f he hu h0 hf a = rw alloc (
  refl,
  pt_entry_is_present-add _,
  page_frame e f he hf,
  rw free (pt_entry_is_present-del _),
  rw free (rw a.address at (pmm_free_block-pmm_alloc_block s f hu a).0),
  rw free (rw a.address at (pmm_free_block-pmm_alloc_block s f hu a).1),
)
  where
    alloc : vmm_alloc_page s e ≡ (1, page_of e f, (pmm_alloc_block s).1)
    alloc = unfold vmm_alloc_page in ground (arith, a.address)

    free : vmm_free_page (pmm_alloc_block s).1 (page_of e f) ≡ (
      pt_entry_del_attrib (page_of e f) pte_present,
      pmm_free_block (pmm_alloc_block s).1 (f * 4096),
    )
    free = unfold vmm_free_page in ground (arith, page_frame e f he hf)
