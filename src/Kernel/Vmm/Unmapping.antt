-- ===== src/Kernel/Vmm/Unmapping.antt =====
-- vmm_unmapPhysicalAddr and vmm_unmapPageTable.
use sea_star_os.Base.{ℕ, ◌/◌, ◌^◌, ◌<◌, ◌≡◌, arith, ◌==◌, if◌then◌else◌, update_lem}
use sea_star_os.Kernel.Vmm.{
  Vm, pde_at, pte_at, vmm_unmap_page_table, vmm_unmap_physical_addr, vmm_get_physical_addr,
}
use sea_star_os.Kernel.Vmm.Mapping.{IsDirectory, pte_apart}

-- Unmapping one address empties its directory slot: every address of the same 4 MB reads back as
-- not mapped, and what any other address reads stays as it was.
pub vmm_get_physical_addr-unmap :
    (vm : Vm) (dir v w : ℕ)
    → IsDirectory vm.mem dir
    → v < 2 ^ 32
    → w < 2 ^ 32
    → vmm_get_physical_addr (vmm_unmap_physical_addr vm dir v) dir w
      ≡ (if w / 2 ^ 22 == v / 2 ^ 22 then 0 else vmm_get_physical_addr vm dir w)
unfolding vmm_get_physical_addr vmm_unmap_physical_addr vmm_unmap_page_table
vmm_get_physical_addr-unmap vm dir v w d hv hw = ground (
  arith,
  update_lem vm.mem (pde_at dir v) 0 (pde_at dir w),
  update_lem vm.mem (pde_at dir v) 0 (pte_at (vm.mem (pde_at dir w)) w),
  pte_apart vm.mem dir d w v hw hv,
)
