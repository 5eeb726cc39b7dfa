-- ===== src/Arch/Rtc/Decoding.antt =====
-- What read_rtc makes of a clock that keeps its time in BCD.
use sea_star_os.Base.{
  ℕ, suc, ◌+◌, ◌*◌, ◌/◌, ◌%◌, ◌<◌, bit_and, ◌≡◌, refl, true, some, List, [], ◌∷◌, ◌++◌, arith, ◌==◌,
  ==_iff, u8, update, all_below, all_below_sound,
}
use sea_star_os.Arch.Ports.{Ports, inportb, outportb}
use sea_star_os.Arch.Rtc.{
  Reading, get_rtc_reg, get_update_in_progress_flag, wait_update, read_registers, same_reading,
  read_stable, from_bcd, hour_from_bcd, convert, read_rtc,
}

-- two decimal digits in one byte
abbrev pub bcd : ℕ → ℕ
bcd n = n / 10 * 16 + n % 10

from_bcd-bcd : (n : ℕ) → n < 100 → from_bcd (bcd n) ≡ n
unfolding all_below from_bcd
from_bcd-bcd n h = (==_iff _ n).0 (all_below_sound 100 (λ n. from_bcd (bcd n) == n) n refl h)

hour_from_bcd-bcd : (n : ℕ) → n < 24 → hour_from_bcd (bcd n) ≡ n
unfolding all_below hour_from_bcd
hour_from_bcd-bcd n h =
    (==_iff _ n).0 (all_below_sound 24 (λ n. hour_from_bcd (bcd n) == n) n refl h)

-- a day and a time of day, the year in two parts
pub record IsTime (r : Reading) : Type 0 where
  pub seconds : r.second < 60
  pub minutes : r.minute < 60
  pub hours : r.hour < 24
  pub days : r.day < 32
  pub months : r.month < 13
  pub years : r.year < 100
  pub centuries : r.century < 100

-- the registers of a clock in BCD
abbrev pub encoded : Reading → Reading
encoded r = record {
  second = bcd r.second;
  minute = bcd r.minute;
  hour = bcd r.hour;
  day = bcd r.day;
  month = bcd r.month;
  year = bcd r.year;
  century = bcd r.century;
}

convert-encoded : (r : Reading) (b : ℕ) → IsTime r → bit_and b 4 ≡ 0 → convert b (encoded r) ≡ r
unfolding convert
convert-encoded r b v e = ground (
  arith,
  from_bcd-bcd r.second,
  from_bcd-bcd r.minute,
  hour_from_bcd-bcd r.hour,
  from_bcd-bcd r.day,
  from_bcd-bcd r.month,
  from_bcd-bcd r.year,
  from_bcd-bcd r.century,
)

-- the bytes that the data port answers while the registers are read once, the flag first
abbrev pub answers : ℕ → Reading → List ℕ → List ℕ
answers flag r rest =
    flag ∷ r.second ∷ r.minute ∷ r.hour ∷ r.day ∷ r.month ∷ r.year ∷ r.century ∷ rest

inportb_lem :
    (m : Ports) (v : ℕ) (vs : List ℕ)
    → m.input 0x71 ≡ v ∷ vs
    → inportb 0x71 m ≡ some (v, record m { input = update m.input 0x71 vs })
unfolding inportb
inportb_lem m v vs h = rw (h, inportb) refl

get_rtc_reg_lem :
    (m : Ports) (reg v : ℕ) (vs : List ℕ)
    → m.input 0x71 ≡ v ∷ vs
    → (m' : Ports) × (get_rtc_reg reg m ≡ some (v, m')) × (m'.input 0x71 ≡ vs)
unfolding get_rtc_reg outportb update
get_rtc_reg_lem m reg v vs h = (
  record { input = update m.input 0x71 vs; out = m.out ++ ((0x70, u8 reg) ∷ []) },
  inportb_lem (outportb 0x70 reg m) v vs h,
  refl,
)

wait_update_lem :
    (m : Ports) (fuel flag : ℕ) (vs : List ℕ)
    → m.input 0x71 ≡ flag ∷ vs
    → bit_and flag 0x80 ≡ 0
    → (m' : Ports) × (wait_update (suc fuel) m ≡ some m') × (m'.input 0x71 ≡ vs)
unfolding wait_update get_update_in_progress_flag outportb update
wait_update_lem m fuel flag vs h z = (
  record { input = update m.input 0x71 vs; out = m.out ++ ((0x70, 0x0A) ∷ []) },
  rw (inportb_lem (outportb 0x70 0x0A m) flag vs h, z) refl,
  refl,
)

read_registers_lem :
    (m : Ports) (r : Reading) (rest : List ℕ)
    → m.input 0x71 ≡ r.second ∷ r.minute ∷ r.hour ∷ r.day ∷ r.month ∷ r.year ∷ r.century ∷ rest
    → (m' : Ports) × (read_registers m ≡ some (r, m')) × (m'.input 0x71 ≡ rest)
unfolding read_registers
read_registers_lem m r rest h =
    let (m1, e1, h1) = get_rtc_reg_lem m 0 r.second _ h in
    let (m2, e2, h2) = get_rtc_reg_lem m1 2 r.minute _ h1 in
    let (m3, e3, h3) = get_rtc_reg_lem m2 4 r.hour _ h2 in
    let (m4, e4, h4) = get_rtc_reg_lem m3 7 r.day _ h3 in
    let (m5, e5, h5) = get_rtc_reg_lem m4 8 r.month _ h4 in
    let (m6, e6, h6) = get_rtc_reg_lem m5 9 r.year _ h5 in
    let (m7, e7, h7) = get_rtc_reg_lem m6 0x32 r.century _ h6 in
    (m7, rw (e1, e2, e3, e4, e5, e6, e7) refl, h7)

same_reading_refl : (r : Reading) → same_reading r r ≡ true
unfolding same_reading
same_reading_refl r = ground arith

read_stable_lem :
    (m : Ports) (rounds fuel flag : ℕ) (r : Reading) (rest : List ℕ)
    → m.input 0x71 ≡ answers flag r rest
    → bit_and flag 0x80 ≡ 0
    → (m' : Ports) × (read_stable (suc rounds) (suc fuel) r m ≡ some (r, m'))
      × (m'.input 0x71 ≡ rest)
unfolding read_stable
read_stable_lem m rounds fuel flag r rest h z =
    let (m1, e1, h1) = wait_update_lem m fuel flag _ h z in
    let (m2, e2, h2) = read_registers_lem m1 r rest h1 in
    (m2, rw (e1, e2, same_reading_refl r) refl, h2)

-- A clock in BCD that is not in an update and answers the same time twice gives that time, with the
-- year in four digits.
pub read_rtc-bcd :
    (m : Ports) (r : Reading) (flag0 flag1 b rounds fuel : ℕ) (rest : List ℕ)
    → m.input 0x71 ≡ answers flag0 (encoded r) (answers flag1 (encoded r) (b ∷ rest))
    → IsTime r
    → bit_and flag0 0x80 ≡ 0
    → bit_and flag1 0x80 ≡ 0
    → bit_and b 4 ≡ 0
    → (m' : Ports) × (read_rtc (suc rounds) (suc fuel) m
        ≡ some (record r { year = r.year + r.century * 100 }, m'))
      × (m'.input 0x71 ≡ rest)
unfolding read_rtc
read_rtc-bcd m r flag0 flag1 b rounds fuel rest h v p q e =
    let (m1, e1, h1) = wait_update_lem m fuel flag0 _ h p in
    let (m2, e2, h2) = read_registers_lem m1 (encoded r) _ h1 in
    let (m3, e3, h3) = read_stable_lem m2 rounds fuel flag1 (encoded r) _ h2 q in
    let (m4, e4, h4) = get_rtc_reg_lem m3 0x0B b rest h3 in
    (m4, rw (e1, e2, e3, e4, convert-encoded r b v e) refl, h4)
