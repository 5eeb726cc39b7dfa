-- ===== src/Fs/Ramdisk/Reading.antt =====
-- fsysRdRead: what it copies, and how it comes to the end of the file.
use sea_star_os.Base.{
  ℕ, zero, suc, ◌+◌, ◌-◌, ◌^◌, ◌≤◌, ◌<◌, ◌≡◌, ◌∙◌, ◌⊎◌, inl, inr, false, some, arith, leb, ◌==◌,
  if◌then◌else◌, ==_iff, Bool-cases, u32, update, update_lem,
}
use sea_star_os.CLib.Strings.{Memory, string_end, strcpy, memcpy, strcat}
use sea_star_os.CLib.Strings.Copies.{within, memcpy_lem}
use sea_star_os.Fs.Vfs.{File}
use sea_star_os.Fs.Ramdisk.{rd_read}

-- appending an empty string writes a 0 over a 0
strcat_empty :
    (fuel : ℕ) (mem : Memory) (d e : ℕ)
    → string_end (suc fuel) mem d ≡ some e
    → mem e ≡ 0
    → mem 0 ≡ 0
    → (mem' : Memory) × (strcat (suc fuel) mem d 0 ≡ some mem') × ((x : ℕ) → mem' x ≡ mem x)
unfolding strcat strcpy
strcat_empty fuel mem d e at z z0 =
    (update mem e 0, rw (at, strcat) (rw z0), λ x. ground (arith, update_lem mem e 0 x))

string_end-zero : (fuel : ℕ) (mem : Memory) (a e : ℕ) → string_end fuel mem a ≡ some e → mem e ≡ 0
unfolding string_end
string_end-zero zero mem a e h = cc
string_end-zero (suc fuel) mem a e h = elim (Bool-cases (mem a == 0)) [
  | inl t ↦
      let h' : some a ≡ some e = rw t at h in
      let e' : a ≡ e = cc in rw (← e') ((==_iff (mem a) 0).0 t)
  | inr t ↦ string_end-zero fuel mem (a + 1) e (rw t at h)
]

-- One read of a file that has `left` bytes to go, from an archive apart from the buffer. Where the
-- byte at address 0 is 0 and a 0 stands at or behind the buffer within the fuel, the read copies the
-- next `len` bytes of the file and changes nothing else; it sets the end mark where no byte is left
-- behind them, and goes on by `len` bytes where some are.
pub rd_read_lem :
    (fuel : ℕ) (mem : Memory) (file : File) (buffer len left e : ℕ)
    → file.current_cluster + left ≡ file.position + file.file_length
    → file.position + file.file_length + len < 2 ^ 32
    → 0 < file.current_cluster + len
    → ((buffer + len ≤ file.current_cluster) ⊎ (file.current_cluster + len ≤ buffer))
    → 0 < buffer
    → mem 0 ≡ 0
    → string_end (suc fuel) (memcpy len mem buffer file.current_cluster) buffer ≡ some e
    → (mem' : Memory) × (rd_read (suc fuel) mem file buffer len
        ≡ some (
          (if leb left len
              then record file { eof = 1 }
              else record file { current_cluster = file.current_cluster + len }),
          mem',
        ))
      × ((x : ℕ)
          → mem' x
            ≡ (if within buffer len x then mem (file.current_cluster + (x - buffer)) else mem x))
unfolding rd_read
rd_read_lem fuel mem file buffer len left e here fits nz apart bz z0 at =
    let copied = memcpy len mem buffer file.current_cluster in
    let clear : (buffer ≤ file.current_cluster) ⊎ (file.current_cluster + len ≤ buffer) =
      omega arith in
    let zero_kept : copied 0 ≡ 0 =
      memcpy_lem len mem buffer file.current_cluster 0 clear ∙ ground arith in
    let (mem', joined, same) =
      strcat_empty fuel copied buffer e at (string_end-zero (suc fuel) copied buffer e at)
        zero_kept in
    let end : u32 (file.position + file.file_length) ≡ file.position + file.file_length =
      omega arith in
    let next : u32 (file.current_cluster + len) ≡ file.current_cluster + len = omega arith in
    let moved : (file.current_cluster + len == 0) ≡ false = ground arith in
    let last : leb (file.position + file.file_length) (file.current_cluster + len) ≡ leb left len =
      ground arith in
    (
      mem',
      rw joined (rw (end, next, last, moved)),
      λ x. same x ∙ memcpy_lem len mem buffer file.current_cluster x clear,
    )
