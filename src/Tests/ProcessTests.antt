-- ===== src/Tests/ProcessTests.antt =====
-- A process from a file of one sector.
use sea_star_os.Base.{
  ℕ, ◌+◌, ◌-◌, ◌^◌, ◌<◌, ◌≡◌, ◌≢◌, ◌⊎◌, none, true, false, not, bit_and, ◌/◌, ◌*◌, ◌≤◌, ◌∙◌, ◌||◌,
  update, refl, inr, ◌&&◌, bit_or, some, [], ◌∷◌, arith, ltb, leb, ◌==◌, if◌then◌else◌,
}
use sea_star_os.CLib.Strings.{Memory, memcpy, memset}
use sea_star_os.CLib.Strings.Copies.{memcpy_lem, memset_lem}
use sea_star_os.Fs.Vfs.{
  File, FileSystem, Devices, file_system_of, vol_open_file, vol_read_file, vol_close_file,
  fs_invalid, fs_dir,
}
use sea_star_os.Kernel.Pmm.{
  Pmm, pmm_alloc_block, pmm_get_free_block_count, mmap_find_first_free, first_free_from,
  first_free_in,
}
use sea_star_os.Kernel.Task.Process.Loading.{started, create_process-Settles}
use sea_star_os.Kernel.Vmm.{pde_at, vmm_get_physical_addr}
use sea_star_os.Kernel.Vmm.Mapping.{IsDirectory}
use sea_star_os.Kernel.Elf.{elf_check_support, elf_check_support_iff, half_at}
use sea_star_os.Kernel.Task.Process.{
  Machine, words_of, cleared_frame, p_vaddr, stack_of, read_sectors, create_process,
  execute_process,
}
use sea_star_os.Kernel.Task.Process.Entering.{create_process_lem}
use sea_star_os.Kernel.Task.Process.Pages.{with_page}

-- An image of 0x200 bytes for 0x3000, with the entry point 0x10 and its program header at 64.
abbrev image : ℕ → ℕ
image i =
    if i == 0
    then 0x7F
    else if i == 1
    then b'E'
    else if i == 2
    then b'L'
    else if i == 3
    then b'F'
    else if i == 4 || i == 5 || i == 6 || i == 20
    then 1
    else if i == 16 || i == 85
    then 2
    else if i == 18
    then 3
    else if i == 24
    then 0x10
    else if i == 28
    then 64
    else if i == 73
    then 0x30
    else 0

abbrev no_file : File
no_file = record {
  name = [];
  flags = 0;
  file_length = 0x200;
  id = 0;
  eof = 0;
  position = 0;
  current_cluster = 0;
  device_id = 0;
}

-- its files all hold the image; the second read meets the end
abbrev images : FileSystem (Memory × ℕ)
images = record {
  address = 7;
  directory = λ dname s. s;
  read_fs = λ file buffer len (mem, disk). (
    record file { position = file.position + len; eof = if file.position == 0 then 0 else 1 },
    (λ a. if leb buffer a && ltb a (buffer + len) then image (a - buffer) else mem a, disk + 1),
  );
  close_fs = λ file s. (file, s);
  open_fs = λ fname s. (no_file, s);
}

abbrev on_a : Devices (Memory × ℕ)
on_a = some images ∷ []

-- "a:x" at 50, and a directory at 0x10000 with the table of the first 4 MB at 0x20000
abbrev machine : Machine ℕ
machine = record {
  mem = λ a.
      if a == 50
      then b'a'
      else if a == 51
      then b':'
      else if a == 52
      then b'x'
      else if a == 0x10000
      then 3
      else if a == 0x10002
      then 2
      else 0;
  disk = 0;
  pmm = record { memory_size = 256; used_blocks = 1; max_blocks = 64; memory_map = λ i. 1 };
  process = record {
    id = 0;
    priority = 0;
    page_directory = 0;
    state = 0;
    thread_count = 0;
    main_thread = record {
      initial_stack = 0;
      stack_limit = 0;
      kernel_stack = 0;
      priority = 0;
      state = 0;
      frame = cleared_frame;
      image_base = 0;
      image_size = 0;
    };
  };
}

abbrev opened : File
opened = record no_file { device_id = b'a' }

-- the memory with the image in the array at 1000
abbrev with_image : Memory
with_image a = if leb 1000 a && ltb a 1512 then image (a - 1000) else machine.mem a

opens :
    vol_open_file on_a no_file machine.mem 50 b'a' (machine.mem, 0)
    ≡ some (opened, (machine.mem, 0))
unfolding vol_open_file file_system_of
opens = refl

reads :
    vol_read_file on_a opened 1000 512 (machine.mem, 0)
    ≡ some (record opened { position = 512 }, (with_image, 1))
unfolding vol_read_file file_system_of
reads = refl

supported : (elf_check_support with_image 1000).0 ≡ 1
unfolding half_at
supported = (elf_check_support_iff with_image 1000).1 (record {
  present = omega arith;
  magic = (refl, refl, refl, refl);
  class_32 = refl;
  lsb_first = refl;
  current = refl;
  kind = inr refl;
  machine_386 = refl;
})

abbrev pmm1 : Pmm
pmm1 = (pmm_alloc_block machine.pmm).1

closes :
    vol_close_file on_a (record opened { position = 512 }) (with_image, 1)
    ≡ some (record opened { position = 512 }, (with_image, 1))
unfolding vol_close_file file_system_of
closes = refl

first_block : pmm_alloc_block machine.pmm ≡ (0x1000, pmm1)
unfolding pmm_alloc_block pmm_get_free_block_count mmap_find_first_free first_free_from
    first_free_in
first_block = refl

-- the first block with the image, and the second sector behind it
abbrev copied : Memory
copied = memcpy 512 (memset 4096 with_image 0x1000 0) 0x1000 1000

abbrev loaded : Memory
loaded a = if leb 0x1200 a && ltb a 0x1400 then image (a - 0x1200) else copied a

abbrev at_end : File
at_end = record opened { position = 1024; eof = 1 }

read_rest :
    read_sectors on_a no_file 1000 0x10000 25 1 0x1000
      (record opened { position = 512 })
      (copied, 1)
    ≡ some (at_end, (loaded, 2))
unfolding read_sectors vol_read_file file_system_of
read_rest = refl

image_address : p_vaddr loaded 1064 ≡ 0x3000
unfolding memcpy memset update
image_address = refl

stack_address : stack_of loaded 1064 ≡ 0x7200
unfolding memcpy memset update
stack_address = refl

mounted : file_system_of on_a b'a' ≡ some (some images)
unfolding file_system_of
mounted = refl

-- a byte after the copies, by the image `img` and the memory `base` before
abbrev byte_after : (ℕ → ℕ) → Memory → Memory
byte_after img base a =
    if leb 0x1000 a && ltb a 0x1200
    then img (a - 0x1000)
    else if leb 0x1200 a && ltb a 0x1400
    then img (a - 0x1200)
    else if leb 0x1400 a && ltb a 0x2000
    then 0
    else if leb 1000 a && ltb a 1512
    then img (a - 1000)
    else base a

abbrev image_in : (ℕ → ℕ) → Memory → Memory
image_in img base a = if leb 1000 a && ltb a 1512 then img (a - 1000) else base a

after_copies :
    (img : ℕ → ℕ) (base : Memory) (a : ℕ)
    → (if leb 0x1200 a && ltb a 0x1400
        then img (a - 0x1200)
        else memcpy 512 (memset 4096 (image_in img base) 0x1000 0) 0x1000 1000 a)
      ≡ byte_after img base a
after_copies img base a =
    rw (memcpy_lem 512 (memset 4096 (image_in img base) 0x1000 0) 0x1000 1000 a (inr (omega arith)))
      (rw
        (
          memset_lem 4096 (image_in img base) 0x1000 0 a,
          memset_lem 4096 (image_in img base) 0x1000 0 (1000 + (a - 0x1000)),
        )
        (ground arith))

byte_after-lt :
    (img : ℕ → ℕ) (base : Memory) (a : ℕ)
    → ((i : ℕ) → img i < 256)
    → ((x : ℕ) → base x < 256)
    → byte_after img base a < 256
byte_after-lt img base a h k = ground (arith, h (a - 0x1000), h (a - 0x1200), h (a - 1000), k a)

image-lt : (i : ℕ) → image i < 256
image-lt i = ground arith

machine-lt : (a : ℕ) → machine.mem a < 256
machine-lt a = ground arith

loaded_bytes : (a : ℕ) → loaded a < 256
loaded_bytes a =
    rw (after_copies image machine.mem a) (byte_after-lt image machine.mem a image-lt machine-lt)

byte_after-high :
    (img : ℕ → ℕ) (base : Memory) (a : ℕ) → 0x2000 ≤ a → byte_after img base a ≡ base a
byte_after-high img base a h = ground arith

loaded_high : (a : ℕ) → 0x2000 ≤ a → loaded a ≡ machine.mem a
loaded_high a h = after_copies image machine.mem a ∙ byte_after-high image machine.mem a h

words_same :
    (f g : Memory) (a : ℕ)
    → ((x : ℕ) → 0x2000 ≤ x → f x ≡ g x)
    → 0x2000 ≤ a
    → words_of f a ≡ words_of g a
words_same f g a h l =
    rw (h a l, h (a + 1) (omega arith), h (a + 2) (omega arith), h (a + 2 + 1) (omega arith)) refl

machine_slot : (i : ℕ) → words_of machine.mem (0x10000 + 4 * i) ≡ (if i == 0 then 0x20003 else 0)
machine_slot i = ground arith

loaded_slot :
    (v : ℕ)
    → v < 2 ^ 32
    → words_of loaded (pde_at 0x10000 v) ≡ (if v / 2 ^ 22 == 0 then 0x20003 else 0)
loaded_slot v h =
    words_same loaded machine.mem (pde_at 0x10000 v) loaded_high (omega arith)
    ∙ machine_slot (v / 2 ^ 22)

loaded-IsDirectory : IsDirectory (words_of loaded) 0x10000
loaded-IsDirectory = record {
  aligned = refl;
  words = λ v h. ground (arith, loaded_slot v h);
  apart = λ v h ne. ground (arith, loaded_slot v h);
  distinct = λ v w h k ne e. ground (arith, loaded_slot v h, loaded_slot w k);
}

has_image : words_of loaded (pde_at 0x10000 (p_vaddr loaded 1064)) ≢ 0
has_image =
    rw (loaded_slot (p_vaddr loaded 1064) (omega (arith, image_address)), image_address)
      (omega arith)

has_stack : words_of loaded (pde_at 0x10000 (stack_of loaded 1064)) ≢ 0
has_stack =
    rw (loaded_slot (stack_of loaded 1064) (omega (arith, stack_address)), stack_address)
      (omega arith)

abbrev pmm2 : Pmm
pmm2 = (pmm_alloc_block pmm1).1

create_process_lem_example :
    (mem : Memory) × (m : Machine ℕ) × (create_process on_a no_file 1000 0x10000 1 1 50 machine
      ≡ some (1, m))
    × ((w : ℕ)
        → w < 2 ^ 32
        → vmm_get_physical_addr (record { pmm = pmm2; mem = words_of mem }) 0x10000 w
          ≡ with_page (stack_of loaded 1064) (bit_or (pmm_alloc_block pmm1).0 7) w (
              with_page
                (p_vaddr loaded 1064)
                (bit_or 0x1000 7)
                w
                (vmm_get_physical_addr (record { pmm = pmm1; mem = words_of loaded }) 0x10000 w)))
    × (◌≡◌ {A = Memory × ℕ} (m.mem, m.disk) (mem, 2))
    × (m.pmm ≡ pmm2)
    × (m.process ≡ started with_image 1000 1064 0x10000 (stack_of loaded 1064))
    × (execute_process m.process
        ≡ some (record {
          directory = 0x10000;
          ip = 0x3010;
          cs = 0x1B;
          flags = 0x200;
          sp = 0;
          ss = 0x23;
        }))
create_process_lem_example =
    create_process_lem on_a no_file 1000 0x10000 0 0 50 1064 0x1000 (pmm_alloc_block pmm1).0 opened
      (record opened { position = 512 }) at_end machine machine.mem with_image loaded 0 1 2 pmm1
      pmm2 images opens refl reads supported refl first_block refl read_rest refl mounted
      (omega arith) loaded_bytes loaded-IsDirectory has_image has_stack
      λ i l.
        rw (loaded_slot (p_vaddr loaded 1064) (omega (arith, image_address)), image_address)
          (omega arith)

-- the run above, in which every call ends
created :
    create_process on_a no_file 1000 0x10000 1 1 50 machine ≡ some (1, create_process_lem_example.1)
created = create_process_lem_example.2

-- the same file is accepted, and the run does not stop short
create_process-Settles_example :
    let result = create_process on_a no_file 1000 0x10000 1 1 50 machine in
    let refused =
      opened.flags == fs_invalid
      || bit_and opened.flags fs_dir == fs_dir
      || not ((elf_check_support with_image 1000).0 == 1)
      || 0x10000 == 0 in
    ((refused ≡ true)
      × ((m : Machine ℕ) × (result ≡ some (0, m))
          × (m.pmm ≡ machine.pmm)
          × (m.process ≡ machine.process)))
    ⊎ ((refused ≡ false)
        × ((result ≡ none)
            ⊎ ((stack : ℕ) × (m : Machine ℕ) × (result ≡ some (1, m))
                × (m.process ≡ started with_image 1000 1064 0x10000 stack)
                × (execute_process m.process
                    ≡ some (record {
                      directory = 0x10000;
                      ip = 0x3010;
                      cs = 0x1B;
                      flags = 0x200;
                      sp = 0;
                      ss = 0x23;
                    })))))
create_process-Settles_example =
    create_process-Settles on_a no_file 1000 0x10000 1 1 50 machine opened
      (record opened { position = 512 }) machine.mem with_image 0 1
      (record opened { position = 512 }, (with_image, 1)) opens reads closes
