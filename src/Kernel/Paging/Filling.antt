-- ===== src/Kernel/Paging/Filling.antt =====
-- The page tables that vmm_initialize fills.
use sea_star_os.Base.{
  ℕ, zero, suc, ◌+◌, ◌-◌, ◌*◌, ◌/◌, ◌%◌, ◌^◌, ◌≤◌, ◌<◌, bit_or, ◌≡◌, refl, ap, ◌∙◌, ◌&&◌, arith,
  ltb, leb, ◌==◌, if◌then◌else◌, ◌>>>◌, update, update_lem, bit_or-disjoint, bit_or_comm,
  bit_and-u10,
}
use sea_star_os.Kernel.Vmm.Entries.{pt_entry_add_attrib, pt_entry_set_frame}
use sea_star_os.Kernel.HeapPages.{page_table_index}
use sea_star_os.Kernel.Paging.{present_page, fill_table}

-- three low bits of an entry beside the page that it names
pub entry_of_page :
    (q bits : ℕ) → q < 2 ^ 20 → bits < 4096 → bit_or bits (q * 4096) ≡ q * 4096 + bits
entry_of_page q bits h b =
    bit_or_comm 32 bits (q * 4096) (omega arith) (omega arith) ∙ bit_or-disjoint 12 q bits b

present_page_lem : (j : ℕ) → j < 2 ^ 20 → present_page (j * 4096) ≡ j * 4096 + 1
unfolding present_page pt_entry_set_frame pt_entry_add_attrib
present_page_lem j h = entry_of_page j 1 h (omega arith)

page_table_index_lem : (x : ℕ) → page_table_index x ≡ x / 4096 % 1024
unfolding page_table_index
page_table_index_lem x = omega (arith, bit_and-u10 (x >>> 12))

fill_step :
    (left frame virtual table j : ℕ) (mem : ℕ → ℕ)
    → page_table_index virtual ≡ j
    → present_page frame ≡ frame + 1
    → fill_table (suc left) frame virtual table mem
      ≡ fill_table left
          (frame + 4096)
          (virtual + 4096)
          table
          (update mem (table + 4 * j) (frame + 1))
unfolding fill_table
fill_step left frame virtual table j mem i p = rw (fill_table, i, p) refl

-- From entry `j` on, the rounds write the entries to `j + left`, of the pages in order, and nothing
-- else.
pub fill_table_lem :
    (left j base table : ℕ) (mem : ℕ → ℕ) (a : ℕ)
    → base % 2 ^ 22 ≡ 0
    → j + left ≤ 1024
    → fill_table left (j * 4096) (base + j * 4096) table mem a ≡ (
        if leb (table + 4 * j) a && ltb a (table + 4 * (j + left)) && (a - table) % 4 == 0
        then (a - table) / 4 * 4096 + 1
        else mem a)
unfolding fill_table
fill_table_lem zero j base table mem a b l = ground arith
fill_table_lem (suc left) j base table mem a b l =
    let index : page_table_index (base + j * 4096) ≡ j =
      page_table_index_lem (base + j * 4096) ∙ omega arith in
    let next =
      fill_table_lem left (j + 1) base table (update mem (table + 4 * j) (j * 4096 + 1)) a b
        (omega arith) in
    let frame : (j + 1) * 4096 ≡ j * 4096 + 4096 = omega arith in
    let virtual : base + (j + 1) * 4096 ≡ base + j * 4096 + 4096 = omega arith in
    let written = update_lem mem (table + 4 * j) (j * 4096 + 1) a in
    ap (λ f. f a)
      (fill_step left (j * 4096) (base + j * 4096) table j mem index
        (present_page_lem j (omega arith)))
    ∙ rw (virtual, frame) at next
    ∙ ground (arith, written)
