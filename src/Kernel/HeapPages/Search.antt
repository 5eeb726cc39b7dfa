-- ===== src/Kernel/HeapPages/Search.antt =====
-- find_free_contiguous_pages: the first run of pages that are not present.
use sea_star_os.Base.{
  ℕ, zero, suc, ◌+◌, ◌*◌, ◌/◌, ◌%◌, ◌^◌, ◌≤◌, ◌<◌, bit_and, ◌≡◌, refl, sym, ap, ◌∙◌, ◌≢◌, inl, inr,
  true, false, Option, some, arith, leb, ◌==◌, if◌then◌else◌, ==_iff, Bool-cases, u32, ◌<<<◌, ◌>>>◌,
  bit_and-u10,
}
use mathlib.Core.Bool.{false≢true}
use sea_star_os.Kernel.Vmm.{Vm, pde_at, vmm_get_physical_addr}
use sea_star_os.Kernel.HeapPages.{
  Progress, found, searching, page_table_index, search_table, search_page_table, search_directory,
  find_free_contiguous_pages,
}
use sea_star_os.Kernel.HeapPages.FirstFit.{
  IsRun, IsFirstFit, IsSearched, search_begins, search_used, search_found, search_free,
}

-- The page of the number `p` has no entry whose present bit is set.
abbrev pub IsFree : Vm → ℕ → ℕ → Type 0
IsFree vm dir p = bit_and (vmm_get_physical_addr vm dir (p * 4096)) 1 ≡ 0

page_table_index_lem : (p : ℕ) → page_table_index (p * 4096) ≡ p % 1024
unfolding page_table_index
page_table_index_lem p = omega (arith, bit_and-u10 (p * 4096 / 4096))

module _ (vm : Vm) (dir start pages : ℕ) where
  -- What the search promises when it returns, or when the pages up to `p` are looked at.
  abbrev Outcome : Progress → ℕ → Type 0
  Outcome (found a) p = (g : ℕ) × (a ≡ g * 4096) × IsFirstFit (IsFree vm dir) start pages g
  Outcome (searching free first) p =
      (g : ℕ) × (first ≡ g * 4096) × IsSearched (IsFree vm dir) start pages p free g

  -- The table holds the entries of the pages from `p` on.
  abbrev HoldsEntries : ℕ → ℕ → ℕ → Type 0
  HoldsEntries table p left =
      (q : ℕ)
      → p ≤ q
      → q < p + left
      → vmm_get_physical_addr vm dir (q * 4096) ≡ vm.mem (table + 4 * (q % 1024))

  next_page :
      (left p free' g' : ℕ) (rest : Progress)
      → p % 1024 + suc left ≡ 1024
      → IsSearched (IsFree vm dir) start pages (p + 1) free' g'
      → (p % 1024 ≢ 1023 → Outcome rest (p + 1 + left))
      → Outcome (if p % 1024 == 1023 then searching free' (g' * 4096) else rest) (p + suc left)
  next_page left p free' g' rest e s' go = elim (Bool-cases (p % 1024 == 1023)) [
    | inl t ↦ (let last : p + suc left ≡ p + 1 = ground (arith, e) in rw (t, last) (g', refl, s'))
    | inr f ↦
        (let more : p + suc left ≡ p + 1 + left = omega arith in rw (f, more) (go (ground arith)))
  ]

  search_table-Outcome :
      (left table p free g : ℕ)
      → IsSearched (IsFree vm dir) start pages p free g
      → HoldsEntries table p left
      → p % 1024 + left ≡ 1024
      → (p + left) * 4096 < 2 ^ 32
      → Outcome (search_table left vm.mem table (p * 4096) pages free (g * 4096)) (p + left)
  unfolding search_table
  search_table-Outcome zero table p free g s holds e b = absurd (omega (arith, e))
  search_table-Outcome (suc left) table p free g s holds e b =
      let entry = vm.mem (table + 4 * (p % 1024)) in
      let this : vmm_get_physical_addr vm dir (p * 4096) ≡ entry =
        holds p (omega arith) (omega arith) in
      let index = page_table_index_lem p in
      let y : u32 (p * 4096 + 4096) ≡ (p + 1) * 4096 = omega arith in
      let again : (free' g' : ℕ)
          → IsSearched (IsFree vm dir) start pages (p + 1) free' g'
          → p % 1024 ≢ 1023
          → Outcome (search_table left vm.mem table ((p + 1) * 4096) pages free' (g' * 4096))
              (p + 1 + left) =
        λ free' g' s' more.
          search_table-Outcome left table (p + 1) free' g' s'
            (λ q l m. holds q (omega (arith, l)) (omega (arith, m))) (omega (arith, e, more))
            (omega (arith, b)) in
      elim (Bool-cases (bit_and entry 0x1 == 0)) [
        | inl t ↦ elim (Bool-cases (leb pages (free + 1))) [
          | inl enough ↦
              rw (index, t, enough)
                (
                  g,
                  refl,
                  search_found (IsFree vm dir) start pages p free g 1 s (one this t) (ground arith),
                )
          | inr few ↦
              rw (index, t, few, y)
                (let s' =
                    search_free (IsFree vm dir) start pages p free g 1 s (one this t)
                      (ground arith) in
                  next_page left p (free + 1) g _ e s' (again (free + 1) g s'))
        ]
        | inr f ↦
            rw (index, f, y)
              (let s' =
                  search_used (IsFree vm dir) start pages p free g s
                    (λ q. false≢true (sym f ∙ (==_iff _ _).1 (rw this at q))) in
                next_page left p 0 (p + 1) _ e s' (again 0 (p + 1) s'))
      ]
    where
      one :
          vmm_get_physical_addr vm dir (p * 4096) ≡ vm.mem (table + 4 * (p % 1024))
          → (bit_and (vm.mem (table + 4 * (p % 1024))) 0x1 == 0) ≡ true
          → (q : ℕ) → p ≤ q
          → q < p + 1
          → IsFree vm dir q
      one this t q l m =
          let same : q ≡ p = omega (arith, l, m) in rw (same, this) ((==_iff _ _).0 t)

  table_of :
      (p q : ℕ)
      → p % 1024 ≡ 0
      → p ≤ q
      → q < p + 1024
      → pde_at dir (q * 4096) ≡ pde_at dir (p * 4096)
  table_of p q a l m = omega arith

  table-IsFree :
      (p : ℕ)
      → p % 1024 ≡ 0
      → vm.mem (pde_at dir (p * 4096)) ≡ 0
      → (q : ℕ) → p ≤ q
      → q < p + 1024
      → IsFree vm dir q
  unfolding vmm_get_physical_addr
  table-IsFree p a e q l m = rw (table_of p q a l m, e) refl

  table-HoldsEntries :
      (p : ℕ)
      → p % 1024 ≡ 0
      → (vm.mem (pde_at dir (p * 4096)) == 0) ≡ false
      → (p + 1024) * 4096 < 2 ^ 32
      → HoldsEntries (bit_and (vm.mem (pde_at dir (p * 4096))) 0xFFFFF000) p 1024
  unfolding vmm_get_physical_addr
  table-HoldsEntries p a e b q l m =
      let index : u32 ((q * 4096) <<< 10) >>> 10 >>> 12 ≡ q % 1024 = omega arith in
      rw (table_of p q a l m, e, index) refl

  search_page_table-Outcome :
      (p free g : ℕ)
      → IsSearched (IsFree vm dir) start pages p free g
      → p % 1024 ≡ 0
      → (p + 1024) * 4096 < 2 ^ 32
      → Outcome (search_page_table vm.mem dir (p * 4096) pages free (g * 4096)) (p + 1024)
  unfolding search_page_table
  search_page_table-Outcome p free g s a b =
      let pde = vm.mem (pde_at dir (p * 4096)) in
      elim (Bool-cases (pde == 0)) [
        | inl t ↦
            (let all = table-IsFree p a ((==_iff _ _).0 t) in
              elim (Bool-cases (leb pages (free + 1024))) [
                | inl enough ↦
                    rw (t, enough)
                      (
                        g,
                        refl,
                        search_found (IsFree vm dir) start pages p free g 1024 s all (ground arith),
                      )
                | inr few ↦
                    rw (t, few)
                      (
                        g,
                        refl,
                        search_free (IsFree vm dir) start pages p free g 1024 s all (ground arith),
                      )
              ])
        | inr f ↦ rw f (
            search_table-Outcome 1024 (bit_and pde 0xFFFFF000) p free g s
              (table-HoldsEntries p a f b) (omega (arith, a)) b)
      ]

  abbrev Finds : Option ℕ → Type 0
  Finds result = (b : ℕ) × (result ≡ some (b * 4096)) × IsFirstFit (IsFree vm dir) start pages b

  go_on :
      (p fuel : ℕ) (progress : Progress)
      → Outcome progress (p + 1024)
      → ((free g : ℕ)
          → IsSearched (IsFree vm dir) start pages (p + 1024) free g
          → Finds (
              search_directory fuel vm.mem dir
                (u32 (p * 4096 + 4096 * 1024))
                pages
                free
                (g * 4096)))
      → Finds (elim progress [
        | found a ↦ some a
        | searching free first ↦
            search_directory fuel vm.mem dir (u32 (p * 4096 + 4096 * 1024)) pages free first
      ])
  go_on p fuel (found a) (g, e, fit) later = (g, ap some e, fit)
  go_on p fuel (searching free first) (g, e, s) later = rw e (later free g s)

  search_directory-IsFirstFit :
      (fuel p free g r : ℕ)
      → IsSearched (IsFree vm dir) start pages p free g
      → p % 1024 ≡ 0
      → (p + 1024 * fuel) * 4096 < 2 ^ 32
      → IsRun (IsFree vm dir) pages r
      → start ≤ r
      → r + pages ≤ p + 1024 * fuel
      → Finds (search_directory fuel vm.mem dir (p * 4096) pages free (g * 4096))
  unfolding search_directory
  search_directory-IsFirstFit zero p free g r s a b run from fits =
      absurd (s.lowest r from (omega (arith, s.at, s.short, fits)) run)
  search_directory-IsFirstFit (suc fuel) p free g r s a b run from fits =
      let x : u32 (p * 4096 + 4096 * 1024) ≡ (p + 1024) * 4096 = omega arith in
      go_on p fuel (search_page_table vm.mem dir (p * 4096) pages free (g * 4096))
        (search_page_table-Outcome p free g s a (omega (arith, b)))
        (λ free' g' s'. rw x (
          search_directory-IsFirstFit fuel (p + 1024) free' g' r s' (omega (arith, a))
            (omega (arith, b)) run from (omega (arith, fits))))

-- The search returns the lowest address, from page `start` on, at which `pages` pages in a row are
-- not present, given that there is one within the `fuel` page tables that are looked at: pages are
-- more than 0, the start is the first page of a table, and the last table ends below 2 ^ 32.
pub find_free_contiguous_pages-IsFirstFit :
    (vm : Vm) (dir start pages fuel r : ℕ)
    → 0 < pages
    → start % 1024 ≡ 0
    → (start + 1024 * fuel) * 4096 < 2 ^ 32
    → IsRun (IsFree vm dir) pages r
    → start ≤ r
    → r + pages ≤ start + 1024 * fuel
    → (b : ℕ) × (find_free_contiguous_pages fuel vm.mem dir (start * 4096) pages ≡ some (b * 4096))
      × IsFirstFit (IsFree vm dir) start pages b
unfolding find_free_contiguous_pages
find_free_contiguous_pages-IsFirstFit vm dir start pages fuel r h a b run from fits =
    search_directory-IsFirstFit vm dir start pages fuel start 0 start r
      (search_begins (IsFree vm dir) start pages h) a b run from fits
