-- ===== src/Kernel/Task/Ranges.antt =====
-- Mapping the pages of a range.
use sea_star_os.Base.{
  ℕ, zero, suc, ◌+◌, ◌-◌, ◌*◌, ◌/◌, ◌^◌, ◌≤◌, ◌<◌, bit_or, ◌≡◌, refl, sym, ap, ◌∙◌, ◌≢◌, inl, inr,
  Bool, true, false, ◌&&◌, some, arith, ltb, leb, ◌==◌, if◌then◌else◌, ==_iff, Bool-cases, u32,
}
use sea_star_os.Kernel.Vmm.{Vm, pde_at, vmm_map_physical_addr, vmm_get_physical_addr}
use sea_star_os.Kernel.Vmm.Mapping.{IsDirectory, map_into_table}
use sea_star_os.Kernel.Task.{map_range}

-- `vm'` is `vm` after mappings into tables that are there: page `p` reads as `entry p` where
-- `mapped p`, and as before elsewhere.
pub record Maps (dir : ℕ) (vm vm' : Vm) (mapped : ℕ → Bool) (entry : ℕ → ℕ) : Type 0 where
  pub reads :
      (w : ℕ)
      → w < 2 ^ 32
      → vmm_get_physical_addr vm' dir w
        ≡ (if mapped (w / 4096) then entry (w / 4096) else vmm_get_physical_addr vm dir w)
  pub well : IsDirectory vm'.mem dir
  pub slots : (w : ℕ) → w < 2 ^ 32 → vm'.mem (pde_at dir w) ≡ vm.mem (pde_at dir w)
  pub pool : vm'.pmm ≡ vm.pmm

-- the pages of a range, and their entries
abbrev pub in_range : ℕ → ℕ → ℕ → Bool
in_range virtual n p = leb (virtual / 4096) p && ltb p (virtual / 4096 + n)

abbrev pub entry_of : ℕ → ℕ → ℕ → ℕ → ℕ
entry_of virtual physical flags p = bit_or (physical + (p - virtual / 4096) * 4096) flags

pub Maps-one :
    (fuel dir v physical flags : ℕ) (vm : Vm)
    → IsDirectory vm.mem dir
    → v < 2 ^ 32
    → vm.mem (pde_at dir v) ≢ 0
    → (vm' : Vm) × (vmm_map_physical_addr (suc fuel) vm dir v physical flags ≡ some vm')
      × Maps dir vm vm' (in_range v 1) (entry_of v physical flags)
Maps-one fuel dir v physical flags vm d h ne =
    let (vm', e, reads, well, pool, slots) = map_into_table fuel vm dir v physical flags d h ne in
    (
      vm',
      e,
      record {
        reads = λ w l. reads w l ∙ elim (Bool-cases (w / 4096 == v / 4096)) [
          | inl t ↦
              (let same : w / 4096 ≡ v / 4096 = (==_iff _ _).0 t in
                let here : in_range v 1 (w / 4096) ≡ true = ground (arith, same) in
                let z : physical + (w / 4096 - v / 4096) * 4096 ≡ physical = omega (arith, same) in
                rw (t, here, z) refl)
          | inr t ↦
              (let there : in_range v 1 (w / 4096) ≡ false = ground arith in rw (t, there) refl)
        ];
        well = well;
        slots = slots;
        pool = pool;
      },
    )

-- two mappings, one after the other
Maps-then :
    (dir : ℕ) (vm vm1 vm2 : Vm) (m1 m2 m : ℕ → Bool) (e1 e2 e : ℕ → ℕ)
    → Maps dir vm vm1 m1 e1
    → Maps dir vm1 vm2 m2 e2
    → ((p x : ℕ) → (if m2 p then e2 p else if m1 p then e1 p else x) ≡ (if m p then e p else x))
    → Maps dir vm vm2 m e
Maps-then dir vm vm1 vm2 m1 m2 m e1 e2 e a b same = record {
  reads = λ w l.
      b.reads w l
      ∙ ap (λ x. if m2 (w / 4096) then e2 (w / 4096) else x) (a.reads w l)
      ∙ same (w / 4096) (vmm_get_physical_addr vm dir w);
  well = b.well;
  slots = λ w l. b.slots w l ∙ a.slots w l;
  pool = b.pool ∙ a.pool;
}

-- The page tables of the range are there.
abbrev pub HasTables : Vm → ℕ → ℕ → ℕ → Type 0
HasTables vm dir virtual n = (j : ℕ) → j < n → vm.mem (pde_at dir (virtual + j * 4096)) ≢ 0

range_step :
    (left fuel i dir virtual physical flags v p : ℕ) (vm vm1 : Vm)
    → u32 (virtual + i * 4096) ≡ v
    → u32 (physical + i * 4096) ≡ p
    → vmm_map_physical_addr fuel vm dir v p flags ≡ some vm1
    → map_range (suc left) fuel i vm dir virtual physical flags
      ≡ map_range left fuel (i + 1) vm1 dir virtual physical flags
unfolding map_range
range_step left fuel i dir virtual physical flags v p vm vm1 at to e = rw (at, to, e) refl

range_join :
    (left i virtual physical flags q x : ℕ)
    → (if in_range (virtual + (i + 1) * 4096) left q
        then entry_of virtual physical flags q
        else if in_range (virtual + i * 4096) 1 q
        then entry_of (virtual + i * 4096) (physical + i * 4096) flags q
        else x)
      ≡ (if in_range (virtual + i * 4096) (suc left) q
          then entry_of virtual physical flags q
          else x)
range_join left i virtual physical flags q x =
    elim (Bool-cases (in_range (virtual + i * 4096) 1 q)) [
      | inl t ↦
          (let later : in_range (virtual + (i + 1) * 4096) left q ≡ false = ground arith in
            let all : in_range (virtual + i * 4096) (suc left) q ≡ true = ground arith in
            let e : physical + i * 4096 + (q - (virtual + i * 4096) / 4096) * 4096
                ≡ physical + (q - virtual / 4096) * 4096 =
              ground arith in
            rw (later, t, all, e) refl)
      | inr t ↦ elim (Bool-cases (in_range (virtual + (i + 1) * 4096) left q)) [
        | inl u ↦
            (let all : in_range (virtual + i * 4096) (suc left) q ≡ true = ground arith in
              rw (u, all) refl)
        | inr u ↦
            (let all : in_range (virtual + i * 4096) (suc left) q ≡ false = ground arith in
              rw (t, u, all) refl)
      ]
    ]

pub map_range-Maps :
    (left fuel i dir virtual physical flags : ℕ) (vm : Vm)
    → IsDirectory vm.mem dir
    → virtual + (i + left) * 4096 ≤ 2 ^ 32
    → physical + (i + left) * 4096 ≤ 2 ^ 32
    → HasTables vm dir virtual (i + left)
    → (vm' : Vm) × (map_range left (suc fuel) i vm dir virtual physical flags ≡ some vm')
      × Maps dir vm vm' (in_range (virtual + i * 4096) left) (entry_of virtual physical flags)
unfolding map_range
map_range-Maps zero fuel i dir virtual physical flags vm d v p has =
    (vm, refl, record { reads = λ w l. ground arith; well = d; slots = λ w l. refl; pool = refl })
map_range-Maps (suc left) fuel i dir virtual physical flags vm d v p has =
    let at : u32 (virtual + i * 4096) ≡ virtual + i * 4096 = omega arith in
    let to : u32 (physical + i * 4096) ≡ physical + i * 4096 = omega arith in
    let (vm1, e1, one) =
      Maps-one fuel dir (virtual + i * 4096) (physical + i * 4096) flags vm d (omega arith)
        (has i (omega arith)) in
    let count : i + suc left ≡ i + 1 + left = omega arith in
    let has1 : HasTables vm1 dir virtual (i + 1 + left) = λ j l. λ z.
      has j (omega (arith, l)) (sym (one.slots (virtual + j * 4096) (omega (arith, l, v))) ∙ z) in
    let (vm2, e2, rest) =
      map_range-Maps left fuel (i + 1) dir virtual physical flags vm1 one.well (omega arith)
        (omega arith) has1 in
    (
      vm2,
      range_step left (suc fuel) i dir virtual physical flags (virtual + i * 4096)
            (physical + i * 4096) vm vm1 at to e1
          ∙ e2,
      Maps-then dir vm vm1 vm2 (in_range (virtual + i * 4096) 1)
          (in_range (virtual + (i + 1) * 4096) left) _
          (entry_of (virtual + i * 4096) (physical + i * 4096) flags)
          (entry_of virtual physical flags) _ one rest (range_join left i virtual physical flags),
    )
