-- ===== src/Fs/Fat12/Table.antt =====
-- The table of clusters, in entries of 12 bits.
use sea_star_os.Base.{
  ℕ, ◌+◌, ◌-◌, ◌*◌, ◌/◌, ◌%◌, ◌^◌, ◌≤◌, ◌<◌, bit_and, ◌≡◌, refl, ap, ◌∙◌, ◌⊎◌, inl, inr, arith, ltb,
  ◌==◌, if◌then◌else◌, Bool-cases, u32, ◌>>>◌, bit_and-u12, bit_and-one,
}
use sea_star_os.Fs.Fat12.{fat_entry_offset, next_cluster}

-- the byte `k` of a table whose entry of cluster `c` is `fat c`: two entries of 12 bits in three bytes
abbrev pub packed : (ℕ → ℕ) → ℕ → ℕ
packed fat k =
    if k % 3 == 0
    then fat (2 * (k / 3)) % 256
    else if k % 3 == 1
    then fat (2 * (k / 3)) / 256 + fat (2 * (k / 3) + 1) % 16 * 16
    else fat (2 * (k / 3) + 1) / 16

packed_first : (fat : ℕ → ℕ) (m : ℕ) → packed fat (3 * m) ≡ fat (2 * m) % 256
packed_first fat m =
    let r : 3 * m % 3 ≡ 0 = omega arith in let q : 3 * m / 3 ≡ m = omega arith in rw (r, q) refl

packed_second :
    (fat : ℕ → ℕ) (m : ℕ) → packed fat (3 * m + 1) ≡ fat (2 * m) / 256 + fat (2 * m + 1) % 16 * 16
packed_second fat m =
    let r : (3 * m + 1) % 3 ≡ 1 = omega arith in
    let q : (3 * m + 1) / 3 ≡ m = omega arith in rw (r, q) refl

packed_third : (fat : ℕ → ℕ) (m : ℕ) → packed fat (3 * m + 2) ≡ fat (2 * m + 1) / 16
packed_third fat m =
    let r : (3 * m + 2) % 3 ≡ 2 = omega arith in
    let q : (3 * m + 2) / 3 ≡ m = omega arith in rw (r, q) refl

-- The entry that the two bytes at the cluster's offset hold, for both kinds of cluster.
entry-packed :
    (fat : ℕ → ℕ) (c : ℕ)
    → ((k : ℕ) → fat k < 4096)
    → (let pair = packed fat (c + c / 2) + packed fat (c + c / 2 + 1) * 2 ^ 8 in
        if bit_and c 1 == 0 then bit_and pair 0x0FFF else pair >>> 4)
      ≡ fat c
entry-packed fat c small =
    let parity : (c % 2 ≡ 0) ⊎ (c % 2 ≡ 1) = omega arith in
    let m = c / 2 in
    elim parity [
      | inl e ↦
          (let at : c + c / 2 ≡ 3 * m = omega arith in
            let even : 2 * m ≡ c = omega arith in
            let bit : bit_and c 1 ≡ 0 = omega (arith, bit_and-one c) in
            rw (bit, at, packed_first fat m, packed_second fat m)
              (rw even (
                omega (
                  arith,
                  bit_and-u12 (fat c % 256 + (fat c / 256 + fat (c + 1) % 16 * 16) * 256),
                  small c,
                ))))
      | inr e ↦
          (let at : c + c / 2 ≡ 3 * m + 1 = omega arith in
            let next : 3 * m + 1 + 1 ≡ 3 * m + 2 = omega arith in
            let odd : 2 * m + 1 ≡ c = omega arith in
            let bit : bit_and c 1 ≡ 1 = omega (arith, bit_and-one c) in
            rw (bit, at, next, packed_second fat m, packed_third fat m)
              (rw odd (omega (arith, small c, small (2 * m)))))
    ]

-- the number of sectors of the table, and of the entries that begin and end in them
abbrev pub table_sectors : ℕ
table_sectors = 9

abbrev pub clusters : ℕ
clusters = 3072

-- The nine sectors from 1 on hold the table.
abbrev pub HoldsFat : (ℕ → ℕ → ℕ) → (ℕ → ℕ) → Type 0
HoldsFat disk fat =
    (q r : ℕ) → q < table_sectors → r < 512 → disk (1 + q) r ≡ packed fat (q * 512 + r)

-- a byte at or behind the offset `k`, in the two sectors that are read
two_sectors :
    (disk : ℕ → ℕ → ℕ) (fat : ℕ → ℕ) (k j : ℕ)
    → HoldsFat disk fat
    → k + j < table_sectors * 512
    → j < 2
    → (if ltb (k % 512 + j) 512
        then disk (1 + k / 512) (k % 512 + j)
        else disk (1 + k / 512 + 1) (k % 512 + j - 512))
      ≡ packed fat (k + j)
two_sectors disk fat k j h i b = elim (Bool-cases (ltb (k % 512 + j) 512)) [
  | inl e ↦
      (let at : k / 512 * 512 + (k % 512 + j) ≡ k + j = omega arith in
        rw e (h (k / 512) (k % 512 + j) (omega (arith, i)) (ground arith) ∙ ap (packed fat) at))
  | inr e ↦
      (let past : 512 ≤ k % 512 + j = ground arith in
        let at : (k / 512 + 1) * 512 + (k % 512 + j - 512) ≡ k + j = omega arith in
        let sector : 1 + k / 512 + 1 ≡ 1 + (k / 512 + 1) = omega arith in
        rw (e, sector)
          (h (k / 512 + 1) (k % 512 + j - 512) (omega (arith, i, past)) (omega arith)
            ∙ ap (packed fat) at))
]

pub next_cluster-packed :
    (disk : ℕ → ℕ → ℕ) (fat : ℕ → ℕ) (c : ℕ)
    → HoldsFat disk fat
    → ((k : ℕ) → fat k < 4096)
    → c < clusters
    → (let sector = 1 + fat_entry_offset c / 512 in
        next_cluster c (disk sector) (disk (sector + 1)))
      ≡ fat c
unfolding next_cluster
next_cluster-packed disk fat c h small b =
    let k = c + c / 2 in
    let wide : u32 (c + c / 2) ≡ k = omega arith in
    let byte0 = two_sectors disk fat k 0 h (omega arith) (omega arith) in
    let byte1 = two_sectors disk fat k 1 h (omega arith) (omega arith) in
    let start : k % 512 + 0 ≡ k % 512 = omega arith in
    let first : k + 0 ≡ k = omega arith in
    let byte0' = rw (start, first) at byte0 in rw (wide, byte0', byte1) (entry-packed fat c small)
