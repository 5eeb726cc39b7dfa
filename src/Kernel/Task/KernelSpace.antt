-- ===== src/Kernel/Task/KernelSpace.antt =====
-- What the address space of a process reads after mapKernelSpace.
use sea_star_os.Base.{
  ℕ, suc, ◌+◌, ◌*◌, ◌/◌, ◌^◌, ◌≤◌, ◌<◌, ◌≡◌, refl, sym, ap, ◌∙◌, ◌≢◌, Option, some, arith,
  if◌then◌else◌, and_then,
}
use sea_star_os.Kernel.Vmm.{Vm, pde_at, vmm_map_physical_addr, vmm_get_physical_addr}
use sea_star_os.Kernel.Vmm.Mapping.{IsDirectory}
use sea_star_os.Kernel.Task.{map_range, map_kernel_space}
use sea_star_os.Kernel.Task.Ranges.{in_range, entry_of, Maps-one, HasTables, map_range-Maps}

-- `vm'` is reached from `vm`, and a page that read `x` reads `f p x`.
record Leads (dir : ℕ) (vm vm' : Vm) (f : ℕ → ℕ → ℕ) : Type 0 where
  reads :
      (w : ℕ)
      → w < 2 ^ 32
      → vmm_get_physical_addr vm' dir w ≡ f (w / 4096) (vmm_get_physical_addr vm dir w)
  well : IsDirectory vm'.mem dir
  slots : (w : ℕ) → w < 2 ^ 32 → vm'.mem (pde_at dir w) ≡ vm.mem (pde_at dir w)
  pool : vm'.pmm ≡ vm.pmm

-- The mapping ends, and leads from `vm` on.
abbrev Ends : ℕ → Vm → Option Vm → (ℕ → ℕ → ℕ) → Type 0
Ends dir vm result f = (vm' : Vm) × (result ≡ some vm') × Leads dir vm vm' f

-- `vm` has the tables of `base`, which are those of `vm1` too
HasTables-Leads :
    (dir base : ℕ) (vm vm1 : Vm) (f : ℕ → ℕ → ℕ) (virtual n : ℕ)
    → Leads dir vm vm1 f
    → vm.mem (pde_at dir base) ≢ 0
    → virtual + n * 4096 ≤ 2 ^ 32
    → ((j : ℕ) → j < n → (virtual + j * 4096) / 2 ^ 22 ≡ base / 2 ^ 22)
    → HasTables vm1 dir virtual n
HasTables-Leads dir base vm vm1 f virtual n m has v same j l z =
    let at : pde_at dir base ≡ pde_at dir (virtual + j * 4096) = omega (arith, same j l) in
    has (ap vm.mem at ∙ sym (m.slots (virtual + j * 4096) (omega (arith, l, v))) ∙ z)

-- a range is mapped behind what has been mapped
then_range :
    (n fuel dir base virtual physical : ℕ) (vm vm1 : Vm) (f : ℕ → ℕ → ℕ)
    → Leads dir vm vm1 f
    → virtual + n * 4096 ≤ 2 ^ 32
    → physical + n * 4096 ≤ 2 ^ 32
    → vm.mem (pde_at dir base) ≢ 0
    → ((j : ℕ) → j < n → (virtual + j * 4096) / 2 ^ 22 ≡ base / 2 ^ 22)
    → Ends dir vm
        (map_range n (suc fuel) 0 vm1 dir virtual physical 3)
        (λ p x. if in_range virtual n p then entry_of virtual physical 3 p else f p x)
then_range n fuel dir base virtual physical vm vm1 f m v p has same =
    let (vm2, e, t) =
      map_range-Maps n fuel 0 dir virtual physical 3 vm1 m.well (omega arith) (omega arith) (
        HasTables-Leads dir base vm vm1 f virtual (0 + n) m has (omega arith)
          (λ j l. same j (omega (arith, l)))) in
    let z : virtual + 0 * 4096 ≡ virtual = omega arith in
    (
      vm2,
      e,
      record {
        reads = λ w l.
            t.reads w l
            ∙ ap
                (λ a.
                  if in_range a n (w / 4096)
                  then entry_of virtual physical 3 (w / 4096)
                  else vmm_get_physical_addr vm1 dir w)
                z
            ∙ ap
                (λ x.
                  if in_range virtual n (w / 4096)
                  then entry_of virtual physical 3 (w / 4096)
                  else x)
                (m.reads w l);
        well = t.well;
        slots = λ w l. t.slots w l ∙ m.slots w l;
        pool = t.pool ∙ m.pool;
      },
    )

-- the same for one page
then_page :
    (fuel dir v : ℕ) (vm vm1 : Vm) (f : ℕ → ℕ → ℕ)
    → Leads dir vm vm1 f
    → v < 2 ^ 32
    → vm.mem (pde_at dir v) ≢ 0
    → Ends dir vm
        (vmm_map_physical_addr (suc fuel) vm1 dir v v 3)
        (λ p x. if in_range v 1 p then entry_of v v 3 p else f p x)
then_page fuel dir v vm vm1 f m h has =
    let (vm2, e, t) = Maps-one fuel dir v v 3 vm1 m.well h (λ z. has (sym (m.slots v h) ∙ z)) in
    (
      vm2,
      e,
      record {
        reads = λ w l.
            t.reads w l
            ∙ ap (λ x. if in_range v 1 (w / 4096) then entry_of v v 3 (w / 4096) else x)
                (m.reads w l);
        well = t.well;
        slots = λ w l. t.slots w l ∙ m.slots w l;
        pool = t.pool ∙ m.pool;
      },
    )

and_then-Ends :
    (dir : ℕ) (vm : Vm) (result : Option Vm) (next : Vm → Option Vm) (f g : ℕ → ℕ → ℕ)
    → Ends dir vm result f
    → ((vm1 : Vm) → Leads dir vm vm1 f → Ends dir vm (next vm1) g)
    → Ends dir vm (and_then result next) g
and_then-Ends dir vm result next f g (vm1, e, m) go =
    let (vm2, e2, m2) = go vm1 m in (vm2, ap (λ o. and_then o next) e ∙ e2, m2)

-- What a page of the address space reads when `before` is what it read: the directory itself, the
-- display, the kernel's image and the kernel's stack.
abbrev pub space_entry : ℕ → ℕ → ℕ → ℕ
space_entry dir p before =
    if in_range dir 1 p
    then entry_of dir dir 3 p
    else if in_range 0xa0000 31 p
    then entry_of 0xa0000 0xa0000 3 p
    else if in_range 0xc0000000 10 p
    then entry_of 0xc0000000 0x100000 3 p
    else if in_range 0x9000 1 p
    then entry_of 0x9000 0x9000 3 p
    else if in_range 0x8000 1 p
    then entry_of 0x8000 0x8000 3 p
    else before

-- mapKernelSpace ends with one call of vmm_mapPhysicalAddr for each page, and then every address of
-- the address space reads what `space_entry` says: the directory, the display, the kernel's image
-- at 3 GB and its stack with the flags of a kernel page, and every other page as before; the
-- allocator is as before. The directory is well formed and the page tables that these addresses
-- need are there.
pub map_kernel_space_lem :
    (fuel : ℕ) (vm : Vm) (dir : ℕ)
    → IsDirectory vm.mem dir
    → dir < 2 ^ 32
    → vm.mem (pde_at dir 0) ≢ 0
    → vm.mem (pde_at dir 0xc0000000) ≢ 0
    → vm.mem (pde_at dir dir) ≢ 0
    → (vm' : Vm) × (map_kernel_space (suc fuel) vm dir ≡ some vm')
      × ((w : ℕ)
          → w < 2 ^ 32
          → vmm_get_physical_addr vm' dir w
            ≡ space_entry dir (w / 4096) (vmm_get_physical_addr vm dir w))
      × IsDirectory vm'.mem dir
      × (vm'.pmm ≡ vm.pmm)
unfolding map_kernel_space
map_kernel_space_lem fuel vm dir d hd low high own =
    let start : Leads dir vm vm (λ p x. x) = record {
      reads = λ w l. refl;
      well = d;
      slots = λ w l. refl;
      pool = refl;
    } in
    let (vm', e, m) =
      and_then-Ends dir vm _ _ _ (space_entry dir)
        (then_page fuel dir 0x8000 vm vm _ start (omega arith) low)
        λ vm1 m1.
          and_then-Ends dir vm _ _ _ (space_entry dir)
            (then_page fuel dir 0x9000 vm vm1 _ m1 (omega arith) low)
            λ vm2 m2.
              and_then-Ends dir vm _ _ _ (space_entry dir)
                (then_range 10 fuel dir 0xc0000000 0xc0000000 0x100000 vm vm2 _ m2 (omega arith)
                  (omega arith) high (λ j l. omega (arith, l)))
                λ vm3 m3.
                  and_then-Ends dir vm _ _ _ (space_entry dir)
                    (then_range 31 fuel dir 0 0xa0000 0xa0000 vm vm3 _ m3 (omega arith)
                      (omega arith) low (λ j l. omega (arith, l)))
                    λ vm4 m4. then_page fuel dir dir vm vm4 _ m4 hd own in
    (vm', e, m.reads, m.well, m.pool)
