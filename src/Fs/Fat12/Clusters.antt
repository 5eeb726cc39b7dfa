-- ===== src/Fs/Fat12/Clusters.antt =====
-- The chain of clusters of a file.
use sea_star_os.Base.{
  ℕ, zero, suc, ◌+◌, ◌/◌, ◌≤◌, ◌<◌, ◌≡◌, refl, ap, ◌∙◌, ◌≢◌, ◌⊎◌, inl, inr, true, false, Option,
  none, some, List, [], ◌∷◌, map, arith, leb, ◌==◌, if◌then◌else◌, u32, sub32, length, and_then,
}
use sea_star_os.Fs.Vfs.{File}
use sea_star_os.Fs.Fat12.{fat_entry_offset, advance, fat_read}
use sea_star_os.Fs.Fat12.Table.{clusters, HoldsFat, next_cluster-packed}

-- The clusters that follow `c`, up to one whose entry ends the file.
abbrev pub IsChain : (ℕ → ℕ) → ℕ → List ℕ → Type 0
IsChain fat c [] = (0xff8 ≤ fat c) ⊎ (fat c ≡ 0)
IsChain fat c (d ∷ ds) = (fat c ≡ d) × (0 < d) × (d < clusters) × IsChain fat d ds

advance-end :
    (file : File) (x : ℕ) → (0xff8 ≤ x) ⊎ (x ≡ 0) → advance file x ≡ (record file { eof = 1 })
unfolding advance
advance-end file x (inl b) = let e : leb 0xff8 x ≡ true = ground arith in rw e refl
advance-end file x (inr q) =
    let e : leb 0xff8 x ≡ false = ground arith in
    let z : (x == 0) ≡ true = ground arith in rw (e, z) refl

advance-next :
    (file : File) (x : ℕ)
    → 0 < x
    → x < 0xff8
    → advance file x ≡ (record file { current_cluster = x })
unfolding advance
advance-next file x p b =
    let e : leb 0xff8 x ≡ false = ground arith in
    let z : (x == 0) ≡ false = ground arith in rw (e, z) refl

module _ {D : Type 0} (read_sector : ℕ → D → Option ((ℕ → ℕ) × D)) where
  -- The disk gives the bytes of its sectors, whatever was read before.
  abbrev pub Serves : (ℕ → ℕ → ℕ) → Type 0
  Serves disk = (lba : ℕ) (d : D) → (d' : D) × (read_sector lba d ≡ some (disk lba, d'))

  -- `while(file.eof != 1)` of the reading of a file: the buffers, one after the other
  pub read_to_end : ℕ → File → D → Option (List (ℕ → ℕ) × File × D)
  read_to_end zero file d = none
  read_to_end (suc fuel) file d =
      let more = and_then (fat_read read_sector file d) λ (file', buffer, d').
        and_then (read_to_end fuel file' d')
          λ (buffers, file'', d''). some (buffer ∷ buffers, file'', d'') in
      if file.eof == 1 then some ([], file, d) else more

  fat_read_lem :
      (disk : ℕ → ℕ → ℕ) (fat : ℕ → ℕ) (file : File) (d : D)
      → Serves disk
      → HoldsFat disk fat
      → ((k : ℕ) → fat k < 4096)
      → file.current_cluster < clusters
      → (d' : D) × (fat_read read_sector file d
          ≡ some (advance file (fat file.current_cluster), disk (31 + file.current_cluster), d'))
  unfolding fat_read
  fat_read_lem disk fat file d serves h small b =
      let c = file.current_cluster in
      let sector = 1 + fat_entry_offset c / 512 in
      let first : u32 (32 + sub32 c 1) ≡ 31 + c = omega arith in
      let (d1, e1) = serves (31 + c) d in
      let (d2, e2) = serves sector d1 in
      let (d3, e3) = serves (sector + 1) d2 in
      (d3, rw (first, e1, e2, e3, next_cluster-packed disk fat c h small b) refl)

  -- the buffer in front of those that the later rounds read
  abbrev tail_read : (ℕ → ℕ) → Option (List (ℕ → ℕ) × File × D) → Option (List (ℕ → ℕ) × File × D)
  tail_read buffer rest =
      and_then rest λ (buffers, file'', d''). some (buffer ∷ buffers, file'', d'')

  read_to_end-closed :
      (fuel : ℕ) (file : File) (d : D)
      → file.eof ≡ 1
      → read_to_end (suc fuel) file d ≡ some ([], file, d)
  unfolding read_to_end
  read_to_end-closed fuel file d e = let at : (file.eof == 1) ≡ true = ground arith in rw at refl

  read_to_end-step :
      (disk : ℕ → ℕ → ℕ) (fat : ℕ → ℕ) (file : File) (c : ℕ) (d : D) (fuel : ℕ)
      → Serves disk
      → HoldsFat disk fat
      → ((k : ℕ) → fat k < 4096)
      → file.current_cluster ≡ c
      → file.eof ≢ 1
      → c < clusters
      → (d' : D) × (read_to_end (suc fuel) file d
          ≡ tail_read (disk (31 + c)) (read_to_end fuel (advance file (fat c)) d'))
  unfolding read_to_end
  read_to_end-step disk fat file c d fuel serves h small at open_file b =
      let (d1, e) = fat_read_lem disk fat file d serves h small (omega (arith, at, b)) in
      let e' = e ∙ ap (λ x. some (advance file (fat x), disk (31 + x), d1)) at in
      let more : (file.eof == 1) ≡ false = ground arith in (d1, rw (more, e') refl)

  -- Reading until the end mark gives the sectors of the file's clusters in the order of the chain,
  -- and ends, given a round for each cluster and one more. The disk serves its sectors and holds a
  -- table of entries of 12 bits in which the clusters `cs` follow the file's first one.
  pub read_to_end-IsChain :
      (cs : List ℕ) (fuel : ℕ) (disk : ℕ → ℕ → ℕ) (fat : ℕ → ℕ) (file : File) (c : ℕ) (d : D)
      → Serves disk
      → HoldsFat disk fat
      → ((k : ℕ) → fat k < 4096)
      → IsChain fat c cs
      → file.current_cluster ≡ c
      → file.eof ≢ 1
      → c < clusters
      → length cs + 1 < fuel
      → (file' : File) × (d' : D) × (read_to_end fuel file d
          ≡ some (map (λ n. disk (31 + n)) (c ∷ cs), file', d'))
        × (file'.eof ≡ 1)
  read_to_end-IsChain cs zero disk fat file c d serves h small chain at open_file b l = elim l [ ]
  read_to_end-IsChain [] (suc zero) disk fat file c d serves h small chain at open_file b l =
      let no : 0 < 0 = omega (arith, l) in elim no [ ]
  read_to_end-IsChain [] (suc (suc fuel)) disk fat file c d serves h small chain at open_file b l =
      let (d1, e) = read_to_end-step disk fat file c d (suc fuel) serves h small at open_file b in
      let closed = record file { eof = 1 } in
      (
        closed,
        d1,
        e
            ∙ ap (λ f. tail_read (disk (31 + c)) (read_to_end (suc fuel) f d1))
                (advance-end file (fat c) chain)
            ∙ ap (tail_read (disk (31 + c))) (read_to_end-closed fuel closed d1 refl),
        refl,
      )
  read_to_end-IsChain (x ∷ xs) (suc fuel) disk fat file c d serves h small (q, p, b', chain) at
        open_file b l =
      let (d1, e) = read_to_end-step disk fat file c d fuel serves h small at open_file b in
      let next = record file { current_cluster = x } in
      let below : x < clusters = omega (arith, b') in
      let left : length xs + 1 < fuel = omega (arith, l) in
      let (file', d', e', closed) =
        read_to_end-IsChain xs fuel disk fat next x d1 serves h small chain refl open_file below
          left in
      (
        file',
        d',
        e
            ∙ ap (λ y. tail_read (disk (31 + c)) (read_to_end fuel (advance file y) d1)) q
            ∙ ap (λ f. tail_read (disk (31 + c)) (read_to_end fuel f d1))
                (advance-next file x p (omega (arith, b')))
            ∙ ap (tail_read (disk (31 + c))) e',
        closed,
      )
