-- ===== src/Kernel/Vmm/Entries.antt =====
-- Kernel/vmm_pte.c, vmm_pde.c and their headers: entries of page tables and of page directories.
--
-- An entry is a 32-bit word; a function that changes one through a pointer returns the new word.
-- The tests return a uint8_t.
use sea_star_os.Base.{ℕ, bit_and, bit_or, u8, not32}

abbrev pub pte_present : ℕ
pte_present = 1

abbrev pub pte_writable : ℕ
pte_writable = 2

abbrev pub pte_frame : ℕ
pte_frame = 0x7FFFF000

abbrev pub pde_user : ℕ
pde_user = 4

abbrev pub pde_4mb : ℕ
pde_4mb = 0x80

unfoldable pub pt_entry_add_attrib : ℕ → ℕ → ℕ
pt_entry_add_attrib e attrib = bit_or e attrib

unfoldable pub pt_entry_del_attrib : ℕ → ℕ → ℕ
pt_entry_del_attrib e attrib = bit_and e (not32 attrib)

unfoldable pub pt_entry_set_frame : ℕ → ℕ → ℕ
pt_entry_set_frame e addr = bit_or (bit_and e (not32 pte_frame)) addr

unfoldable pub pt_entry_is_present : ℕ → ℕ
pt_entry_is_present e = u8 (bit_and e pte_present)

unfoldable pub pt_entry_is_writable : ℕ → ℕ
pt_entry_is_writable e = u8 (bit_and e pte_writable)

unfoldable pub pt_entry_pfn : ℕ → ℕ
pt_entry_pfn e = bit_and e pte_frame

unfoldable pub pd_entry_add_attrib : ℕ → ℕ → ℕ
pd_entry_add_attrib e attrib = bit_or e attrib

unfoldable pub pd_entry_del_attrib : ℕ → ℕ → ℕ
pd_entry_del_attrib e attrib = bit_and e (not32 attrib)

unfoldable pub pd_entry_set_frame : ℕ → ℕ → ℕ
pd_entry_set_frame e addr = bit_or (bit_and e (not32 0x7FFFF000)) addr

unfoldable pub pd_entry_is_present : ℕ → ℕ
pd_entry_is_present e = u8 (bit_and e 1)

unfoldable pub pd_entry_is_writable : ℕ → ℕ
pd_entry_is_writable e = u8 (bit_and e 2)

unfoldable pub pd_entry_pfn : ℕ → ℕ
pd_entry_pfn e = bit_and e 0x7FFFF000

unfoldable pub pd_entry_is_user : ℕ → ℕ
pd_entry_is_user e = u8 (bit_and e pde_user)

unfoldable pub pd_entry_is_4mb : ℕ → ℕ
pd_entry_is_4mb e = u8 (bit_and e pde_4mb)
