-- ===== src/Kernel/Task/Process/Entering.antt =====
-- A process whose image fits in its sectors: its pages, and where it is entered.
use sea_star_os.Base.{
  ℕ, suc, ◌+◌, ◌/◌, ◌<◌, ◌^◌, bit_and, bit_or, ◌≡◌, refl, sym, ap, ◌∙◌, ◌≢◌, false, some, arith,
  ◌==◌, u32,
}
use sea_star_os.CLib.Strings.{Memory, memcpy, memset}
use sea_star_os.Fs.Vfs.{
  File, FileSystem, Devices, fs_dir, fs_invalid, file_system_of, vol_open_file, vol_read_file,
}
use sea_star_os.Kernel.Pmm.{Pmm, pmm_alloc_block}
use sea_star_os.Kernel.Vmm.{pde_at, vmm_get_physical_addr}
use sea_star_os.Kernel.Vmm.Mapping.{IsDirectory}
use sea_star_os.Kernel.Elf.{elf_check_support}
use sea_star_os.Kernel.Task.Process.Pages.{
  vol_close_file_lem, with_page, word-lt, map_page_lem, alloc-lt, stack_of-kept,
}
use sea_star_os.Kernel.Task.Process.Loading.{started, with_stack, enters}
use sea_star_os.Kernel.Task.Process.{
  Machine, words_of, map_page, e_entry, e_phoff, p_vaddr, p_memsz, process_of, stack_of,
  read_sectors, load_pages, set_up_stack, load_process, check_image, create_process,
  execute_process,
}

module _ {D : Type 0} (table : Devices (Memory × D)) (blank : File) (buf dir : ℕ) where
  load_pages-end :
      (fuel map_fuel i p_entry : ℕ) (file : File) (m : Machine D)
      → file.eof ≡ 1
      → load_pages table blank buf dir (suc fuel) map_fuel i p_entry file m ≡ some (file, m)
  unfolding load_pages
  load_pages-end fuel map_fuel i p_entry file m e = rw e refl

  load_process-steps :
      (fuel map_fuel p_entry memory : ℕ) (file file1 file2 : File) (m mapped loaded : Machine D)
      (pmm : Pmm) (mem : Memory) (disk : D)
      → p_entry ≡ u32 (buf + e_phoff m.mem buf)
      → pmm_alloc_block m.pmm ≡ (memory, pmm)
      → read_sectors table blank buf dir
          (u32 (p_vaddr m.mem p_entry + p_memsz m.mem p_entry) / 512)
          1
          memory
          file
          (memcpy 512 (memset 4096 m.mem memory 0) memory buf, m.disk)
        ≡ some (file1, (mem, disk))
      → map_page map_fuel dir
          (p_vaddr mem p_entry)
          memory
          (record { mem = mem; disk = disk; pmm = pmm; process = process_of m.mem buf p_entry dir })
        ≡ some mapped
      → load_pages table blank buf dir fuel map_fuel 1 p_entry file1 mapped ≡ some (file2, loaded)
      → load_process table blank buf dir fuel map_fuel file m
        ≡ set_up_stack table blank buf dir map_fuel p_entry file2 loaded
  unfolding load_process process_of
  load_process-steps fuel map_fuel p_entry memory file file1 file2 m mapped loaded pmm mem disk p a
        r e l =
      rw (sym p, a, r, e, l) refl

  -- createProcess of a file that can be opened and whose image in `buf` is supported
  create_process-steps :
      (fuel map_fuel image_path : ℕ) (file file' : File) (m : Machine D) (mem mem' : Memory)
      (disk disk' : D)
      → vol_open_file table blank m.mem image_path (m.mem image_path) (m.mem, m.disk)
        ≡ some (file, (mem, disk))
      → file.flags ≡ 0
      → vol_read_file table file buf 512 (mem, disk) ≡ some (file', (mem', disk'))
      → (elf_check_support mem' buf).0 ≡ 1
      → dir ≢ 0
      → create_process table blank buf dir fuel map_fuel image_path m
        ≡ load_process table blank buf dir fuel map_fuel file'
            (record m { mem = mem'; disk = disk' })
  unfolding create_process check_image
  create_process-steps fuel map_fuel image_path file file' m mem mem' disk disk' o f r s nz =
      let z : (dir == 0) ≡ false = ground arith in
      let valid : (file.flags == fs_invalid) ≡ false = rw f refl in
      let plain : (bit_and file.flags fs_dir == fs_dir) ≡ false = rw f refl in
      rw (o, valid, plain, r, s, z) refl

  -- the stack is mapped, the file is closed, and the process gets the stack
  set_up_stack-steps :
      (map_fuel p_entry block : ℕ) (hdr : Memory) (file : File) (m mapped : Machine D) (pmm : Pmm)
      (fs : FileSystem (Memory × D))
      → m.process ≡ process_of hdr buf p_entry dir
      → pmm_alloc_block m.pmm ≡ (block, pmm)
      → map_page map_fuel dir (stack_of m.mem p_entry) block (record m { pmm = pmm }) ≡ some mapped
      → file_system_of table file.device_id ≡ some (some fs)
      → (m' : Machine D) × (set_up_stack table blank buf dir map_fuel p_entry file m ≡ some (1, m'))
        × ((m'.mem, m'.disk) ≡ (fs.close_fs file (mapped.mem, mapped.disk)).1)
        × (m'.pmm ≡ mapped.pmm)
        × (m'.process ≡ started hdr buf p_entry dir (stack_of m.mem p_entry))
  unfolding set_up_stack process_of
  set_up_stack-steps map_fuel p_entry block hdr file m mapped pmm fs is a e f =
      let closed = (fs.close_fs file (mapped.mem, mapped.disk)).1 in
      (
        record mapped {
          mem = closed.0;
          disk = closed.1;
          process = with_stack (stack_of m.mem p_entry) m.process;
        },
        rw (a, e, vol_close_file_lem table file (mapped.mem, mapped.disk) fs f)
            (ap
              (λ p. some (
                p.id,
                record mapped {
                  mem = closed.0;
                  disk = closed.1;
                  process = with_stack (stack_of m.mem p_entry) m.process;
                },
              ))
              is),
        refl,
        refl,
        ap (with_stack (stack_of m.mem p_entry)) is,
      )

  -- createProcess of a plain file whose image is supported, and whose end is reached in the sectors of
  -- the image, returns 1. Given are a page directory that is not NULL, two blocks, the file system of
  -- the file's device, and, in the memory of bytes as the reading of those sectors left it, a directory
  -- apart from its tables, the tables of the two pages, and a program header that lies apart from the
  -- first of them. Then the page of the image's address reads the first block and the page of the
  -- stack the second, both for the user, and every other page reads as after the reading; the file is
  -- closed on that memory, the process is set for the image in every field, and executeProcess enters
  -- it on its directory at the entry point, taken from the image's address on, with stack pointer 0.
  pub create_process_lem :
      (fuel map_fuel image_path p_entry memory block : ℕ) (file0 file file1 : File) (m : Machine D)
      (mem0 mem1 mem : Memory) (disk0 disk1 disk : D) (pmm1 pmm2 : Pmm)
      (fs : FileSystem (Memory × D))
      → vol_open_file table blank m.mem image_path (m.mem image_path) (m.mem, m.disk)
        ≡ some (file0, (mem0, disk0))
      → file0.flags ≡ 0
      → vol_read_file table file0 buf 512 (mem0, disk0) ≡ some (file, (mem1, disk1))
      → (elf_check_support mem1 buf).0 ≡ 1
      → p_entry ≡ u32 (buf + e_phoff mem1 buf)
      → pmm_alloc_block m.pmm ≡ (memory, pmm1)
      → pmm_alloc_block pmm1 ≡ (block, pmm2)
      → read_sectors table blank buf dir
          (u32 (p_vaddr mem1 p_entry + p_memsz mem1 p_entry) / 512)
          1
          memory
          file
          (memcpy 512 (memset 4096 mem1 memory 0) memory buf, disk1)
        ≡ some (file1, (mem, disk))
      → file1.eof ≡ 1
      → file_system_of table file1.device_id ≡ some (some fs)
      → dir ≢ 0
      → ((a : ℕ) → mem a < 256)
      → IsDirectory (words_of mem) dir
      → words_of mem (pde_at dir (p_vaddr mem p_entry)) ≢ 0
      → words_of mem (pde_at dir (stack_of mem p_entry)) ≢ 0
      → ((i : ℕ)
          → i < 32
          → (p_entry + i) / 4096 ≢ words_of mem (pde_at dir (p_vaddr mem p_entry)) / 4096)
      → (mem' : Memory) × (m' : Machine D) × (create_process table blank buf dir
            (suc fuel)
            (suc map_fuel)
            image_path
            m
          ≡ some (1, m'))
        × ((w : ℕ)
            → w < 2 ^ 32
            → vmm_get_physical_addr (record { pmm = pmm2; mem = words_of mem' }) dir w
              ≡ with_page (stack_of mem p_entry) (bit_or block 7) w (
                  with_page
                    (p_vaddr mem p_entry)
                    (bit_or memory 7)
                    w
                    (vmm_get_physical_addr (record { pmm = pmm1; mem = words_of mem }) dir w)))
        × ((m'.mem, m'.disk) ≡ (fs.close_fs file1 (mem', disk)).1)
        × (m'.pmm ≡ pmm2)
        × (m'.process ≡ started mem1 buf p_entry dir (stack_of mem p_entry))
        × (execute_process m'.process
            ≡ some (record {
              directory = dir;
              ip = u32 (e_entry mem1 buf + p_vaddr mem1 p_entry);
              cs = 0x1B;
              flags = 0x200;
              sp = 0;
              ss = 0x23;
            }))
  unfolding vmm_get_physical_addr
  create_process_lem fuel map_fuel image_path p_entry memory block file0 file file1 m mem0 mem1 mem
        disk0 disk1 disk pmm1 pmm2 fs o f r s p a a2 rs eof close nz bytes d has_image has_stack
        apart =
      let hm = alloc-lt m.pmm memory pmm1 a in
      let hb = alloc-lt pmm1 block pmm2 a2 in
      let vaddr = p_vaddr mem p_entry in
      let stack = stack_of mem p_entry in
      let read : Machine D = record {
        mem = mem;
        disk = disk;
        pmm = pmm1;
        process = process_of mem1 buf p_entry dir;
      } in
      let hv : vaddr < 2 ^ 32 = word-lt mem (p_entry + 8) bytes in
      let hs : stack < 2 ^ 32 = omega arith in
      let (one, e1, reads1, d1, slots1, keeps1, bytes1, pool1, proc1, disk1') =
        map_page_lem map_fuel dir vaddr memory read bytes d hv hm has_image in
      let kept : stack_of one.mem p_entry ≡ stack =
        stack_of-kept mem one.mem p_entry (λ i l. keeps1 (p_entry + i) (apart i l)) in
      let (two, e2, reads2, d2, slots2, keeps2, bytes2, pool2, proc2, disk2) =
        map_page_lem map_fuel dir stack block (record one { pmm = pmm2 }) bytes1 d1 hs hb
          (λ z. has_stack (sym (slots1 stack hs) ∙ z)) in
      let (m', e3, shut, pool3, is) =
        set_up_stack-steps (suc map_fuel) p_entry block mem1 file1 one two pmm2 fs proc1
          (ap pmm_alloc_block pool1 ∙ a2) (rw kept e2) close in
      let is' : m'.process ≡ started mem1 buf p_entry dir stack =
        is ∙ ap (started mem1 buf p_entry dir) kept in
      let on : (dir == 0) ≡ false = ground arith in
      (
        two.mem,
        m',
        create_process-steps (suc fuel) (suc map_fuel) image_path file0 file m mem0 mem1 disk0 disk1
              o f r s nz
            ∙ load_process-steps (suc fuel) (suc map_fuel) p_entry memory file file1 file1
                (record m { mem = mem1; disk = disk1 }) one one pmm1 mem disk p a rs e1
                (load_pages-end fuel (suc map_fuel) 1 p_entry file1 one eof)
            ∙ e3,
        λ w l. reads2 w l ∙ ap (with_page stack (bit_or block 7) w) (reads1 w l),
        shut ∙ ap (λ t. (fs.close_fs file1 (two.mem, t)).1) (disk2 ∙ disk1'),
        pool3 ∙ pool2,
        is',
        ap execute_process is' ∙ enters mem1 buf p_entry dir stack on,
      )
