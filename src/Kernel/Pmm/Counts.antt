-- ===== src/Kernel/Pmm/Counts.antt =====
-- The functions of Kernel/pmm.c that tell a number.
use sea_star_os.Base.{ℕ, bit_and, ◌==◌, if◌then◌else◌}
use sea_star_os.Kernel.Pmm.{Pmm, pmm_block_size}

pub pmm_get_memory_size : Pmm → ℕ
pmm_get_memory_size s = s.memory_size

pub pmm_get_block_count : Pmm → ℕ
pmm_get_block_count s = s.max_blocks

pub pmm_get_used_block_count : Pmm → ℕ
pmm_get_used_block_count s = s.used_blocks

pub pmm_get_block_size : ℕ
pmm_get_block_size = pmm_block_size

-- of the control register that the assembly returns; 0 is the answer where paging is on
pub pmm_is_paging : ℕ → ℕ
pmm_is_paging res = if bit_and res 0x80000000 == 0 then 1 else 0
