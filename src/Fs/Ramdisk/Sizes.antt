-- ===== src/Fs/Ramdisk/Sizes.antt =====
-- getsize reads an octal number.
use sea_star_os.Base.{ℕ, zero, suc, ◌+◌, ◌*◌, ◌^◌, ◌<◌, ◌≡◌, ◌∙◌, arith, u32, sub32}
use sea_star_os.CLib.Strings.{Memory}
use sea_star_os.Fs.Ramdisk.{getsize_loop, getsize}

-- the number that the first `n` octal digits write
abbrev pub octal : ℕ → (ℕ → ℕ) → ℕ
octal zero digit = 0
octal (suc n) digit = octal n digit * 8 + digit n

scale_count : (count o : ℕ) → 8 * (count * o) < 2 ^ 32 → u32 (count * 8) * o ≡ 8 * (count * o)
scale_count count zero h = omega arith
scale_count count (suc m) h =
    let e : u32 (count * 8) ≡ count * 8 = omega arith in rw e (omega arith)

getsize_loop-octal :
    (n : ℕ) (mem : Memory) (field size count : ℕ) (digit : ℕ → ℕ)
    → ((i : ℕ) → i < n → (mem (field + i) ≡ b'0' + digit i) × (digit i < 8))
    → size + count * octal n digit < 2 ^ 32
    → getsize_loop n mem field size count ≡ size + count * octal n digit
unfolding getsize_loop
getsize_loop-octal zero mem field size count digit h l = omega arith
getsize_loop-octal (suc n) mem field size count digit h l =
    let (byte, small) = h n (omega arith) in
    let value : sub32 (mem (field + n)) b'0' ≡ digit n = omega arith in
    let step : count * (octal n digit * 8 + digit n)
        ≡ 8 * (count * octal n digit) + digit n * count =
      grind arith in
    let size' : u32 (size + digit n * count) ≡ size + digit n * count = omega arith in
    let count' = scale_count count (octal n digit) (omega arith) in
    rw (value, size')
      (getsize_loop-octal n mem field (size + digit n * count) (u32 (count * 8)) digit
          (λ i q. h i (omega arith)) (omega arith)
        ∙ omega arith)

-- getsize of eleven octal digits is the number that they write, where it fits 32 bits.
pub getsize-octal :
    (mem : Memory) (field : ℕ) (digit : ℕ → ℕ)
    → ((i : ℕ) → i < 11 → (mem (field + i) ≡ b'0' + digit i) × (digit i < 8))
    → octal 11 digit < 2 ^ 32
    → getsize mem field ≡ octal 11 digit
unfolding getsize
getsize-octal mem field digit h l =
    getsize_loop-octal 11 mem field 0 1 digit h (omega arith) ∙ omega arith
