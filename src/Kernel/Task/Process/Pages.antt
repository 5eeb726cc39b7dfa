-- ===== src/Kernel/Task/Process/Pages.antt =====
-- The mapping of a page in memory: what is read through the tables before and after, by the bytes.
use sea_star_os.Base.{
  ℕ, suc, ◌+◌, ◌*◌, ◌/◌, ◌%◌, ◌<◌, inl, inr, Bool-cases, bit_or-lt, ◌^◌, bit_or, ◌≡◌, refl, sym, ap,
  ◌∙◌, ◌≢◌, ◌⊎◌, some, arith, ◌==◌, if◌then◌else◌,
}
use sea_star_os.CLib.Strings.{Memory}
use sea_star_os.Fs.Vfs.{File, FileSystem, Devices, file_system_of, vol_close_file}
use sea_star_os.Kernel.Pmm.{Pmm, pmm_alloc_block}
use sea_star_os.Kernel.Vmm.{Vm, pde_at, pte_at, vmm_get_physical_addr}
use sea_star_os.Kernel.Vmm.Mapping.{
  IsDirectory, IsDirectory-same, pte_place, map_keeps, map_into_table,
}
use sea_star_os.Kernel.Task.Process.{Machine, words_of, bytes_of, map_page, stack_of}

pub vol_close_file_lem :
    {S : Type 0} (table : Devices S) (file : File) (s : S) (fs : FileSystem S)
    → file_system_of table file.device_id ≡ some (some fs)
    → vol_close_file table file s ≡ some (fs.close_fs file s)
unfolding vol_close_file
vol_close_file_lem table file s fs e = rw (vol_close_file, e) refl

-- the page of `a` reads `entry`, and every other page as before
abbrev pub with_page : ℕ → ℕ → ℕ → ℕ → ℕ
with_page a entry w before = if w / 4096 == a / 4096 then entry else before

-- what the directory gives for an address, in the machine's memory
abbrev pub page_table_word : {D : Type 0} → Machine D → ℕ → ℕ → ℕ
page_table_word m dir w = vmm_get_physical_addr (record { pmm = m.pmm; mem = words_of m.mem }) dir w

-- A page is mapped into a table that is there: the words that read back from the bytes.
pub word-lt : (mem : Memory) (a : ℕ) → ((a : ℕ) → mem a < 256) → words_of mem a < 2 ^ 32
word-lt mem a h = omega (arith, h a, h (a + 1), h (a + 2), h (a + 2 + 1))

read-lt :
    (mem : Memory) (pmm : Pmm) (dir w : ℕ)
    → ((a : ℕ) → mem a < 256)
    → vmm_get_physical_addr (record { pmm = pmm; mem = words_of mem }) dir w < 2 ^ 32
unfolding vmm_get_physical_addr
read-lt mem pmm dir w h = ground (arith, word-lt mem (pte_at (words_of mem (pde_at dir w)) w) h)

words_of-bytes_of :
    (words : ℕ → ℕ) (a : ℕ) → a % 4 ≡ 0 → words a < 2 ^ 32 → words_of (bytes_of words) a ≡ words a
words_of-bytes_of words a al b =
    let k0 : a / 4 * 4 ≡ a = omega arith in
    let k1 : (a + 1) / 4 * 4 ≡ a = omega arith in
    let k2 : (a + 2) / 4 * 4 ≡ a = omega arith in
    let k3 : (a + 3) / 4 * 4 ≡ a = omega arith in
    let k3' : (a + 2 + 1) / 4 * 4 ≡ a = omega arith in
    let m1 : (a + 1) % 4 ≡ 1 = omega arith in
    let m2 : (a + 2) % 4 ≡ 2 = omega arith in
    let m3' : (a + 2 + 1) % 4 ≡ 3 = omega arith in
    rw (k0, k1, k2, k3', al, m1, m2, m3') (omega arith)

with_page-lt :
    (a entry w before : ℕ) → entry < 2 ^ 32 → before < 2 ^ 32 → with_page a entry w before < 2 ^ 32
with_page-lt a entry w before h k = ground arith

-- what is read through the words of the bytes is what is read through the words
synced :
    (vm : Vm) (dir w : ℕ)
    → IsDirectory vm.mem dir
    → w < 2 ^ 32
    → words_of (bytes_of vm.mem) (pde_at dir w) ≡ vm.mem (pde_at dir w)
    → vmm_get_physical_addr vm dir w < 2 ^ 32
    → vmm_get_physical_addr (record { pmm = vm.pmm; mem = words_of (bytes_of vm.mem) }) dir w
      ≡ vmm_get_physical_addr vm dir w
unfolding vmm_get_physical_addr
synced vm dir w d hw e b = elim (Bool-cases (vm.mem (pde_at dir w) == 0)) [
  | inl z ↦ rw e (rw z refl)
  | inr nz ↦
      let b' : vm.mem (pte_at (vm.mem (pde_at dir w)) w) < 2 ^ 32 = rw nz at b in
      rw e (
        rw nz (
          words_of-bytes_of vm.mem (pte_at (vm.mem (pde_at dir w)) w)
            (rw (pte_place vm.mem dir d w hw) (omega arith)) b'))
]

word_bytes :
    (mem : Memory) (b : ℕ)
    → ((x : ℕ) → mem x < 256)
    → (words_of mem b / 256 ^ 0 % 256 ≡ mem b)
      × (words_of mem b / 256 ^ 1 % 256 ≡ mem (b + 1))
      × (words_of mem b / 256 ^ 2 % 256 ≡ mem (b + 2))
      × (words_of mem b / 256 ^ 3 % 256 ≡ mem (b + 2 + 1))
word_bytes mem b h =
    let h0 = h b in
    let h1 = h (b + 1) in
    let h2 = h (b + 2) in
    let h3 = h (b + 2 + 1) in (omega arith, omega arith, omega arith, omega arith)

byte_of_word :
    (mem : Memory) (a : ℕ)
    → ((x : ℕ) → mem x < 256)
    → words_of mem (a / 4 * 4) / 256 ^ (a % 4) % 256 ≡ mem a
byte_of_word mem a h = elim (below_four (a % 4) (omega arith)) [
  | inl e ↦ rw e ((word_bytes mem (a / 4 * 4) h).0 ∙ ap mem (omega arith))
  | inr (inl e) ↦ rw e ((word_bytes mem (a / 4 * 4) h).1 ∙ ap mem (omega arith))
  | inr (inr (inl e)) ↦ rw e ((word_bytes mem (a / 4 * 4) h).2 ∙ ap mem (omega arith))
  | inr (inr (inr e)) ↦ rw e ((word_bytes mem (a / 4 * 4) h).3 ∙ ap mem (omega arith))
]
  where
    below_four : (i : ℕ) → i < 4 → (i ≡ 0) ⊎ ((i ≡ 1) ⊎ ((i ≡ 2) ⊎ (i ≡ 3)))
    below_four i l = ground arith

pub map_page_lem :
    {D : Type 0} (fuel dir v physical : ℕ) (m : Machine D)
    → ((a : ℕ) → m.mem a < 256)
    → IsDirectory (words_of m.mem) dir
    → v < 2 ^ 32
    → physical < 2 ^ 32
    → words_of m.mem (pde_at dir v) ≢ 0
    → (m' : Machine D) × (map_page (suc fuel) dir v physical m ≡ some m')
      × ((w : ℕ)
          → w < 2 ^ 32
          → page_table_word m' dir w ≡ with_page v (bit_or physical 7) w (page_table_word m dir w))
      × IsDirectory (words_of m'.mem) dir
      × ((w : ℕ) → w < 2 ^ 32 → words_of m'.mem (pde_at dir w) ≡ words_of m.mem (pde_at dir w))
      × ((a : ℕ) → a / 4096 ≢ words_of m.mem (pde_at dir v) / 4096 → m'.mem a ≡ m.mem a)
      × ((a : ℕ) → m'.mem a < 256)
      × (m'.pmm ≡ m.pmm)
      × (m'.process ≡ m.process)
      × (m'.disk ≡ m.disk)
unfolding map_page
map_page_lem fuel dir v physical m bytes d hv hp ne =
    let before : Vm = record { pmm = m.pmm; mem = words_of m.mem } in
    let (vm, e, reads, d', pool, slots) = map_into_table fuel before dir v physical 7 d hv ne in
    let slot = λ (w : ℕ) (hw : w < 2 ^ 32).
      words_of-bytes_of vm.mem (pde_at dir w) (omega (arith, d.aligned))
        (rw (slots w hw) (word-lt m.mem (pde_at dir w) bytes)) in
    (
      record m { mem = bytes_of vm.mem; pmm = vm.pmm },
      rw e refl,
      λ w hw.
          synced vm dir w d' hw (slot w hw) (
            rw (reads w hw) (
              with_page-lt v (bit_or physical 7) w (page_table_word m dir w)
                (bit_or-lt 32 physical 7 hp (omega arith)) (read-lt m.mem m.pmm dir w bytes)))
          ∙ reads w hw,
      IsDirectory-same vm.mem (words_of (bytes_of vm.mem)) dir slot d',
      λ w hw. slot w hw ∙ slots w hw,
      λ a apart.
          ap (λ t. t / 256 ^ (a % 4) % 256)
            (map_keeps fuel before vm dir v physical 7 (a / 4 * 4) ne e
              λ at. apart (omega (arith, at, pte_place before.mem dir d v hv)))
          ∙ byte_of_word m.mem a bytes,
      λ a. omega arith,
      pool,
      refl,
      refl,
    )

alloc_block-lt : (s : Pmm) → (pmm_alloc_block s).0 < 2 ^ 32
unfolding pmm_alloc_block
alloc_block-lt s = ground arith

pub alloc-lt : (s : Pmm) (p : ℕ) (s' : Pmm) → pmm_alloc_block s ≡ (p, s') → p < 2 ^ 32
alloc-lt s p s' e =
    let e' : (pmm_alloc_block s).0 ≡ p = ap (λ x. x.0) e in omega (arith, alloc_block-lt s)

pub stack_of-kept :
    (mem mem' : Memory) (p_entry : ℕ)
    → ((i : ℕ) → i < 32 → mem' (p_entry + i) ≡ mem (p_entry + i))
    → stack_of mem' p_entry ≡ stack_of mem p_entry
stack_of-kept mem mem' p_entry h =
    let at = λ (i j : ℕ) (l : i + j < 32).
      let e : p_entry + i + j ≡ p_entry + (i + j) = omega arith in
      ap mem' e ∙ h (i + j) l ∙ ap mem (sym e) in
    let at' = λ (i : ℕ) (l : i + 2 + 1 < 32).
      let e : p_entry + i + 2 + 1 ≡ p_entry + (i + 2 + 1) = omega arith in
      ap mem' e ∙ h (i + 2 + 1) l ∙ ap mem (sym e) in
    let v0 = h 8 (omega arith) in
    let v1 = at 8 1 (omega arith) in
    let v2 = at 8 2 (omega arith) in
    let v3 = at' 8 (omega arith) in
    let s0 = h 20 (omega arith) in
    let s1 = at 20 1 (omega arith) in
    let s2 = at 20 2 (omega arith) in
    let s3 = at' 20 (omega arith) in rw (v0, v1, v2, v3, s0, s1, s2, s3) refl
