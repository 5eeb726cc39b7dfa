-- ===== src/Kernel/Task/Process/Loading.antt =====
-- What createProcess sets up, and what executeProcess then enters.
use sea_star_os.Base.{
  ℕ, zero, suc, ◌+◌, ◌*◌, ◌/◌, bit_and, ◌≡◌, refl, ap, ◌∙◌, ◌||◌, ◌⊎◌, inl, inr, true, false, not,
  Option, Option-cases, Bool-cases, none, some, ◌==◌, u32,
}
use sea_star_os.CLib.Strings.{Memory, memcpy, memset}
use sea_star_os.Fs.Vfs.{
  File, Devices, fs_dir, fs_invalid, vol_open_file, vol_read_file, vol_close_file,
}
use sea_star_os.Kernel.Pmm.{pmm_alloc_block}
use sea_star_os.Kernel.Vmm.{vmm_map_physical_addr}
use sea_star_os.Kernel.Elf.{elf_check_support}
use sea_star_os.Kernel.Task.Process.{
  Machine, Process, words_of, map_page, e_entry, e_phoff, p_vaddr, p_memsz, process_state_active,
  process_of, user_page, stack_of, read_sectors, load_pages, set_up_stack, load_process,
  check_image, create_process, execute_process,
}
use sea_star_os.Kernel.Task.Process.Outcomes.{
  Always, Always-none, Always-some, Always-found, Always-if, Always-step, Always-and_then,
  Always-weaken,
}

-- The process that createProcess sets up, by the header at `buf`.
abbrev pub started : Memory → ℕ → ℕ → ℕ → ℕ → Process
started hdr buf p_entry dir stack = record {
  id = 1;
  priority = 1;
  page_directory = dir;
  state = process_state_active;
  thread_count = 1;
  main_thread = record {
    initial_stack = stack;
    stack_limit = 4096;
    kernel_stack = 0;
    priority = 1;
    state = process_state_active;
    frame = record {
      esp = stack;
      ebp = stack;
      eip = u32 (e_entry hdr buf + p_vaddr hdr p_entry);
      edi = 0;
      esi = 0;
      eax = 0;
      ebx = 0;
      ecx = 0;
      edx = 0;
      eflags = 0x200;
    };
    image_base = p_vaddr hdr p_entry;
    image_size = u32 (p_vaddr hdr p_entry + p_memsz hdr p_entry);
  };
}

pub enters :
    (hdr : Memory) (buf p_entry dir stack : ℕ)
    → (dir == 0) ≡ false
    → execute_process (started hdr buf p_entry dir stack)
      ≡ some (record {
        directory = dir;
        ip = u32 (e_entry hdr buf + p_vaddr hdr p_entry);
        cs = 0x1B;
        flags = 0x200;
        sp = 0;
        ss = 0x23;
      })
unfolding execute_process
enters hdr buf p_entry dir stack nz = rw nz refl

-- the last fields of createProcess
abbrev pub with_stack : ℕ → Process → Process
with_stack stack p = record p {
  main_thread = record p.main_thread {
    initial_stack = stack;
    frame = record p.main_thread.frame { esp = stack; ebp = stack };
  };
}

map_page-process :
    {D : Type 0} (map_fuel dir virtual physical : ℕ) (m : Machine D)
    → Always (λ m'. m'.process ≡ m.process) (map_page map_fuel dir virtual physical m)
unfolding map_page
map_page-process map_fuel dir virtual physical m =
    Always-step (λ m'. m'.process ≡ m.process)
      (vmm_map_physical_addr map_fuel (record { pmm = m.pmm; mem = words_of m.mem }) dir virtual
        physical user_page)
      _ λ vm. Always-some (λ m'. m'.process ≡ m.process) _ refl

module _ {D : Type 0} (table : Devices (Memory × D)) (blank : File) (buf dir : ℕ) where
  -- the process is that of `m`
  abbrev Keeps : Machine D → File × Machine D → Type 0
  Keeps m r = r.1.process ≡ m.process

  load_pages-Keeps :
      (fuel map_fuel i p_entry : ℕ) (file : File) (m : Machine D)
      → Always (Keeps m) (load_pages table blank buf dir fuel map_fuel i p_entry file m)
  unfolding load_pages
  load_pages-Keeps zero map_fuel i p_entry file m = Always-none (Keeps m)
  load_pages-Keeps (suc fuel) map_fuel i p_entry file m =
      Always-if (Keeps m) (file.eof == 1) _ _ (λ e. Always-some (Keeps m) _ refl)
        λ e.
          let (cur, pmm) = pmm_alloc_block m.pmm in
          Always-step (Keeps m) (read_sectors table blank buf dir 8 0 cur file (m.mem, m.disk)) _
            λ (file', (mem, disk)).
              let read : Machine D = record m { mem = mem; disk = disk; pmm = pmm } in
              let at = u32 (p_vaddr mem p_entry + i * 4096) in
              Always-and_then (Keeps m) (λ m'. m'.process ≡ m.process)
                (map_page map_fuel dir at cur read) _ (map_page-process map_fuel dir at cur read)
                λ m' e.
                  Always-weaken (Keeps m) (Keeps m') _ (λ r k. k ∙ e)
                    (load_pages-Keeps fuel map_fuel (i + 1) p_entry file' m')

  -- 1 with the process that the header in `hdr` asks for, on `dir`
  abbrev IsStarted : Memory → ℕ × Machine D → Type 0
  IsStarted hdr (r, m) =
      (r ≡ 1)
      × ((stack : ℕ) × (m.process ≡ started hdr buf (u32 (buf + e_phoff hdr buf)) dir stack))

  set_up_stack-IsStarted :
      (map_fuel p_entry : ℕ) (hdr : Memory) (file : File) (m : Machine D)
      → m.process ≡ process_of hdr buf (u32 (buf + e_phoff hdr buf)) dir
      → Always (IsStarted hdr) (set_up_stack table blank buf dir map_fuel p_entry file m)
  unfolding set_up_stack process_of
  set_up_stack-IsStarted map_fuel p_entry hdr file m e =
      let (stack_phys, pmm) = pmm_alloc_block m.pmm in
      let stack = stack_of m.mem p_entry in
      Always-step (IsStarted hdr) (map_page map_fuel dir stack stack_phys (record m { pmm = pmm }))
        _
        λ m'.
          Always-step (IsStarted hdr) (vol_close_file table file (m'.mem, m'.disk)) _
            λ (file', (mem, disk)).
              Always-some (IsStarted hdr) _ (ap (λ p. p.id) e, (stack, ap (with_stack stack) e))

  load_process-IsStarted :
      (fuel map_fuel : ℕ) (file : File) (m : Machine D)
      → Always (IsStarted m.mem) (load_process table blank buf dir fuel map_fuel file m)
  unfolding load_process process_of
  load_process-IsStarted fuel map_fuel file m =
      let hdr = m.mem in
      let p_entry = u32 (buf + e_phoff hdr buf) in
      let process = process_of hdr buf p_entry dir in
      let (memory, pmm) = pmm_alloc_block m.pmm in
      let copied = memcpy 512 (memset 4096 hdr memory 0) memory buf in
      Always-step (IsStarted hdr)
        (read_sectors table blank buf dir (process.main_thread.image_size / 512) 1 memory file
          (copied, m.disk))
        _
        λ (file1, (mem, disk)).
          let read : Machine D = record { mem = mem; disk = disk; pmm = pmm; process = process } in
          Always-and_then (IsStarted hdr) (λ m'. m'.process ≡ process)
            (map_page map_fuel dir (p_vaddr mem p_entry) memory read) _
            (map_page-process map_fuel dir (p_vaddr mem p_entry) memory read)
            λ mapped e.
              Always-and_then (IsStarted hdr) (Keeps mapped)
                (load_pages table blank buf dir fuel map_fuel 1 p_entry file1 mapped) _
                (load_pages-Keeps fuel map_fuel 1 p_entry file1 mapped)
                λ (file2, loaded) k.
                  set_up_stack-IsStarted map_fuel p_entry hdr file2 loaded (k ∙ e)

  -- Given are what the opening of the path and the reading of its first sector give, and that the
  -- file is closed. createProcess refuses an invalid file, a directory, an image that
  -- elf_check_support does not accept, and a missing page directory: it returns 0, with the block
  -- allocator and the process as before. Otherwise, where its loops and its calls come to an end within
  -- the fuel and inside of the tables, it returns 1, and every field of the process and its thread is
  -- set for the image: active, on its directory, with the entry point and the image's place from the
  -- header, the stack in all three places, and nothing left of the process before; executeProcess
  -- then enters that point on that directory.
  pub create_process-Settles :
      (fuel map_fuel image_path : ℕ) (m : Machine D) (file file' : File) (mem mem' : Memory)
      (disk disk' : D) (closed : File × (Memory × D))
      → vol_open_file table blank m.mem image_path (m.mem image_path) (m.mem, m.disk)
        ≡ some (file, (mem, disk))
      → vol_read_file table file buf 512 (mem, disk) ≡ some (file', (mem', disk'))
      → vol_close_file table file' (mem', disk') ≡ some closed
      → let result = create_process table blank buf dir fuel map_fuel image_path m in
        let refused =
          file.flags == fs_invalid
          || bit_and file.flags fs_dir == fs_dir
          || not ((elf_check_support mem' buf).0 == 1)
          || dir == 0 in
        let p_entry = u32 (buf + e_phoff mem' buf) in
        ((refused ≡ true)
          × ((m' : Machine D) × (result ≡ some (0, m'))
              × (m'.pmm ≡ m.pmm)
              × (m'.process ≡ m.process)))
        ⊎ ((refused ≡ false)
            × ((result ≡ none)
                ⊎ ((stack : ℕ) × (m' : Machine D) × (result ≡ some (1, m'))
                    × (m'.process ≡ started mem' buf p_entry dir stack)
                    × (execute_process m'.process
                        ≡ some (record {
                          directory = dir;
                          ip = u32 (e_entry mem' buf + p_vaddr mem' p_entry);
                          cs = 0x1B;
                          flags = 0x200;
                          sp = 0;
                          ss = 0x23;
                        })))))
  unfolding create_process check_image
  create_process-Settles fuel map_fuel image_path m file file' mem mem' disk disk' closed o r c =
      elim (Bool-cases (file.flags == fs_invalid)) [
        | inl t ↦ inl (rw t refl, (record m { mem = mem; disk = disk }, rw (o, t) refl, refl, refl))
        | inr f1 ↦ elim (Bool-cases (bit_and file.flags fs_dir == fs_dir)) [
          | inl t ↦ inl (
            rw (f1, t) refl,
            (record m { mem = mem; disk = disk }, rw (o, f1, t) refl, refl, refl),
          )
          | inr f2 ↦ elim (Bool-cases ((elf_check_support mem' buf).0 == 1)) [
            | inr t ↦ inl (
              rw (f1, f2, t) refl,
              (record m { mem = mem'; disk = disk' }, rw (o, f1, f2, r, t) refl, refl, refl),
            )
            | inl t ↦ elim (Bool-cases (dir == 0)) [
              | inl z ↦ inl (
                rw (f1, f2, t, z) refl,
                (
                  record m { mem = closed.1.0; disk = closed.1.1 },
                  rw (o, f1, f2, r, t, z, c) refl,
                  refl,
                  refl,
                ),
              )
              | inr nz ↦ inr (rw (f1, f2, t, nz) refl, loads nz (rw (o, f1, f2, r, t, nz) refl))
            ]
          ]
        ]
      ]
    where
      read : Machine D
      read = record m { mem = mem'; disk = disk' }

      result : Option (ℕ × Machine D)
      result = create_process table blank buf dir fuel map_fuel image_path m

      entry : ℕ
      entry = u32 (buf + e_phoff mem' buf)

      loads :
          (dir == 0) ≡ false
          → result ≡ load_process table blank buf dir fuel map_fuel file' read
          → (result ≡ none)
            ⊎ ((stack : ℕ) × (m' : Machine D) × (result ≡ some (1, m'))
                × (m'.process ≡ started mem' buf entry dir stack)
                × (execute_process m'.process
                    ≡ some (record {
                      directory = dir;
                      ip = u32 (e_entry mem' buf + p_vaddr mem' entry);
                      cs = 0x1B;
                      flags = 0x200;
                      sp = 0;
                      ss = 0x23;
                    })))
      loads nz e = elim (Option-cases (load_process table blank buf dir fuel map_fuel file' read)) [
        | inl n ↦ inl (e ∙ n)
        | inr (rm, g) ↦
            let (one, (stack, is)) =
              Always-found (IsStarted mem') _ rm g
                (load_process-IsStarted fuel map_fuel file' read) in
            inr (
              stack,
              rm.1,
              e ∙ g ∙ ap (λ x. some (x, rm.1)) one,
              is,
              ap execute_process is ∙ enters mem' buf entry dir stack nz,
            )
      ]
