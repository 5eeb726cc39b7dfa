-- ===== src/Kernel/Task/Process.antt =====
-- createProcess and executeProcess of Kernel/task.c.
--
-- Memory is flat bytes: the path, the local array `buf`, the blocks of the image, and the page tables,
-- whose words are four bytes each, all lie in it, and a file system works on it too. The process's own
-- record and the variables of the kernel stand beside it. What is printed is left
-- out. `none` is a loop over the file that takes more rounds than there is fuel, or a file of a device
-- outside the table of file systems.
pub mod Outcomes
pub mod Pages
pub mod Loading
pub mod Entering
use sea_star_os.Base.{
  ℕ, zero, suc, ◌+◌, ◌-◌, ◌*◌, ◌/◌, ◌%◌, ◌^◌, ◌≤◌, ◌<◌, min, max, bit_and, bit_or, ◌≡◌, refl, sym,
  ap, ◌∙◌, ◌≢◌, ◌↔◌, ◌⊎◌, inl, inr, Bool, true, false, not, ◌&&◌, ◌||◌, Option, none, some, List,
  [], ◌∷◌, ◌++◌, map, arith, ltb, leb, ◌==◌, if◌then◌else◌, ==_iff, Bool-cases, Option-cases, u8,
  u16, u32, sub32, not32, ◌<<<◌, ◌>>>◌, length, get_elem?, get_or, set, length-append, length-set,
  get_elem?-set_self, get_elem?-set_ne, get_elem?-past, and_then, update, update_lem, test_bit,
  test_bit-le, test_bit-or, test_bit-and, test_bit-zero, test_bit-pow, test_bit-complement,
  word_ext, bit_and-zero, bit_and-pow, bit_and-lt, bit_or-lt, pow-lt, test_bit_of_clear,
  test_bit_of_set, bit_or-disjoint, test_bit-high, test_bit-low, bit_and-u8, bit_and-u10,
  bit_and-u12, bit_and-one, bit_and-u16, test_bit-shifted, test_bit_of_lt, ℤ, pos, negsuc, sub_ℕ,
  all_below, all_below_sound,
}
use sea_star_os.CLib.Strings.{Memory, memcpy, memset}
use sea_star_os.Fs.Vfs.{
  File, Devices, fs_dir, fs_invalid, vol_open_file, vol_read_file, vol_close_file,
}
use sea_star_os.Fs.Fat12.{u32_at}
use sea_star_os.Kernel.Pmm.{Pmm, pmm_alloc_block}
use sea_star_os.Kernel.Vmm.{page_size, vmm_map_physical_addr}
use sea_star_os.Kernel.Elf.{elf_check_support}

pub record TrapFrame : Type 0 where
  pub esp : ℕ
  pub ebp : ℕ
  pub eip : ℕ
  pub edi : ℕ
  pub esi : ℕ
  pub eax : ℕ
  pub ebx : ℕ
  pub ecx : ℕ
  pub edx : ℕ
  pub eflags : ℕ

-- without the pointer to its process
pub record Thread : Type 0 where
  pub initial_stack : ℕ
  pub stack_limit : ℕ
  pub kernel_stack : ℕ
  pub priority : ℕ
  pub state : ℕ
  pub frame : TrapFrame
  pub image_base : ℕ
  pub image_size : ℕ

-- with the first of the threads, the only one in use
pub record Process : Type 0 where
  pub id : ℕ
  pub priority : ℕ
  pub page_directory : ℕ
  pub state : ℕ
  pub thread_count : ℕ
  pub main_thread : Thread

-- -1 as a word
abbrev pub proc_invalid_id : ℕ
proc_invalid_id = 2 ^ 32 - 1

abbrev pub process_state_active : ℕ
process_state_active = 1

abbrev pub cleared_frame : TrapFrame
cleared_frame = record {
  esp = 0;
  ebp = 0;
  eip = 0;
  edi = 0;
  esi = 0;
  eax = 0;
  ebx = 0;
  ecx = 0;
  edx = 0;
  eflags = 0;
}

-- fields of the header of an ELF file, and of a program header
abbrev pub e_entry : Memory → ℕ → ℕ
e_entry mem hdr = u32_at mem (hdr + 24)

abbrev pub e_phoff : Memory → ℕ → ℕ
e_phoff mem hdr = u32_at mem (hdr + 28)

abbrev pub p_vaddr : Memory → ℕ → ℕ
p_vaddr mem p_entry = u32_at mem (p_entry + 8)

abbrev pub p_memsz : Memory → ℕ → ℕ
p_memsz mem p_entry = u32_at mem (p_entry + 20)

-- the process and its thread, as they are before the image is loaded
pub process_of : Memory → ℕ → ℕ → ℕ → Process
process_of mem hdr p_entry address_space = record {
  id = 1;
  priority = 1;
  page_directory = address_space;
  state = process_state_active;
  thread_count = 1;
  main_thread = record {
    initial_stack = 0;
    stack_limit = 0 + 4096;
    kernel_stack = 0;
    priority = 1;
    state = process_state_active;
    frame = record cleared_frame {
      eip = u32 (e_entry mem hdr + p_vaddr mem p_entry);
      eflags = 0x200;
    };
    image_base = p_vaddr mem p_entry;
    image_size = u32 (p_vaddr mem p_entry + p_memsz mem p_entry);
  };
}

-- present, writable and for the user
abbrev pub user_page : ℕ
user_page = 7

-- the address of the stack
abbrev pub stack_of : Memory → ℕ → ℕ
stack_of mem p_entry =
    u32 (p_vaddr mem p_entry + (p_vaddr mem p_entry + p_memsz mem p_entry) + page_size)

pub record Machine (D : Type 0) : Type 0 where
  pub mem : Memory
  pub disk : D
  pub pmm : Pmm
  pub process : Process

-- the words of memory, and the bytes of the words at the multiples of 4
abbrev pub words_of : Memory → ℕ → ℕ
words_of mem a = u32_at mem a

abbrev pub bytes_of : (ℕ → ℕ) → Memory
bytes_of words a = words (a / 4 * 4) / 256 ^ (a % 4) % 256

-- vmm_mapPhysicalAddr of a page for the user, on the machine's memory
pub map_page : {D : Type 0} → ℕ → ℕ → ℕ → ℕ → Machine D → Option (Machine D)
map_page map_fuel dir virtual physical m =
    and_then
      (vmm_map_physical_addr map_fuel (record { pmm = m.pmm; mem = words_of m.mem }) dir virtual
        physical user_page)
      λ vm. some (record m { mem = bytes_of vm.mem; pmm = vm.pmm })

module _ {D : Type 0} (table : Devices (Memory × D)) (blank : File) (buf dir : ℕ) where
  -- Sectors of 512 bytes go to `to` and on, from number `i` on, until the end of the file or for `left`
  -- rounds: the `for` loops.
  unfoldable pub read_sectors : ℕ → ℕ → ℕ → File → Memory × D → Option (File × (Memory × D))
  read_sectors zero i to file s = some (file, s)
  read_sectors (suc left) i to file s =
      let more =
        and_then (vol_read_file table file (u32 (to + 512 * i)) 512 s)
          λ (file', s'). read_sectors left (i + 1) to file' s' in
      if file.eof == 1 then some (file, s) else more

  -- the `while` loop: further blocks, for the pages from number `i` on
  pub load_pages : ℕ → ℕ → ℕ → ℕ → File → Machine D → Option (File × Machine D)
  load_pages zero map_fuel i p_entry file m = none
  load_pages (suc fuel) map_fuel i p_entry file m =
      let (cur, pmm) = pmm_alloc_block m.pmm in
      let more = and_then (read_sectors 8 0 cur file (m.mem, m.disk)) λ (file', (mem, disk)).
        and_then
          (map_page map_fuel dir (u32 (p_vaddr mem p_entry + i * 4096)) cur
            (record m { mem = mem; disk = disk; pmm = pmm }))
          λ m'. load_pages fuel map_fuel (i + 1) p_entry file' m' in
      if file.eof == 1 then some (file, m) else more

  -- the stack, and what is left of createProcess behind it
  pub set_up_stack : ℕ → ℕ → File → Machine D → Option (ℕ × Machine D)
  set_up_stack map_fuel p_entry file m =
      let stack = stack_of m.mem p_entry in
      let (stack_phys, pmm) = pmm_alloc_block m.pmm in
      let thread = m.process.main_thread in
      let process = record m.process {
        main_thread = record thread {
          initial_stack = stack;
          frame = record thread.frame { esp = stack; ebp = stack };
        };
      } in
      and_then (map_page map_fuel dir stack stack_phys (record m { pmm = pmm })) λ m'.
        and_then (vol_close_file table file (m'.mem, m'.disk)) λ (file', (mem, disk)).
          some (process.id, record m' { mem = mem; disk = disk; process = process })

  -- from the process's fields on; the header is read where it is used
  pub load_process : ℕ → ℕ → File → Machine D → Option (ℕ × Machine D)
  load_process fuel map_fuel file m =
      let p_entry = u32 (buf + e_phoff m.mem buf) in
      let process = process_of m.mem buf p_entry dir in
      let (memory, pmm) = pmm_alloc_block m.pmm in
      let copied = memcpy 512 (memset 4096 m.mem memory 0) memory buf in
      and_then (read_sectors (process.main_thread.image_size / 512) 1 memory file (copied, m.disk))
        λ (file1, (mem, disk)).
          and_then
            (map_page map_fuel dir (p_vaddr mem p_entry) memory
              (record { mem = mem; disk = disk; pmm = pmm; process = process }))
            λ mapped.
              and_then (load_pages fuel map_fuel 1 p_entry file1 mapped)
                λ (file2, loaded). set_up_stack map_fuel p_entry file2 loaded

  -- the test of the image in `buf`, and of the directory, which `vmm_get_directory` returns
  pub check_image : ℕ → ℕ → File → Machine D → Option (ℕ × Machine D)
  check_image fuel map_fuel file m =
      let closed =
        and_then (vol_close_file table file (m.mem, m.disk))
          λ (file', (mem, disk)). some (0, record m { mem = mem; disk = disk }) in
      let loaded = load_process fuel map_fuel file m in
      if not ((elf_check_support m.mem buf).0 == 1)
      then some (0, m)
      else if dir == 0
      then closed
      else loaded

  unfoldable pub create_process : ℕ → ℕ → ℕ → Machine D → Option (ℕ × Machine D)
  create_process fuel map_fuel image_path m =
      and_then (vol_open_file table blank m.mem image_path (m.mem image_path) (m.mem, m.disk))
        λ (file, (mem, disk)).
          let opened = record m { mem = mem; disk = disk } in
          let checked =
            and_then (vol_read_file table file buf 512 (mem, disk)) λ (file', (mem', disk')).
              check_image fuel map_fuel file' (record m { mem = mem'; disk = disk' }) in
          if file.flags == fs_invalid
          then some (0, opened)
          else if bit_and file.flags fs_dir == fs_dir
          then some (0, opened)
          else checked

-- What the jump to user mode takes: the directory that is loaded, and the frame that `iret` pops.
pub record UserFrame : Type 0 where
  pub directory : ℕ
  pub ip : ℕ
  pub cs : ℕ
  pub flags : ℕ
  pub sp : ℕ
  pub ss : ℕ

-- `none` is a return without a jump; the stack of the thread is read, and 0 is pushed.
pub execute_process : Process → Option UserFrame
execute_process proc =
    if proc.id == proc_invalid_id
    then none
    else if proc.page_directory == 0
    then none
    else some (record {
      directory = proc.page_directory;
      ip = proc.main_thread.frame.eip;
      cs = 0x1B;
      flags = 0x200;
      sp = 0x0;
      ss = 0x23;
    })
