-- ===== src/Arch/Rtc.antt =====
-- Arch/x86/Hal/rtc.c: the clock, read through the ports of the CMOS.
--
-- The variables that are written through pointers are the fields of a record. A loop that waits for
-- the clock takes fuel.
pub mod Decoding
use sea_star_os.Base.{
  ℕ, zero, suc, ◌+◌, ◌-◌, ◌*◌, ◌/◌, ◌%◌, ◌^◌, ◌≤◌, ◌<◌, min, max, bit_and, bit_or, ◌≡◌, refl, sym,
  ap, ◌∙◌, ◌≢◌, ◌↔◌, ◌⊎◌, inl, inr, Bool, true, false, not, ◌&&◌, ◌||◌, Option, none, some, List,
  [], ◌∷◌, ◌++◌, map, arith, ltb, leb, ◌==◌, if◌then◌else◌, ==_iff, Bool-cases, Option-cases, u8,
  u16, u32, sub32, not32, ◌<<<◌, ◌>>>◌, length, get_elem?, get_or, set, length-append, length-set,
  get_elem?-set_self, get_elem?-set_ne, get_elem?-past, and_then, update, update_lem, test_bit,
  test_bit-le, test_bit-or, test_bit-and, test_bit-zero, test_bit-pow, test_bit-complement,
  word_ext, bit_and-zero, bit_and-pow, bit_and-lt, bit_or-lt, pow-lt, test_bit_of_clear,
  test_bit_of_set, bit_or-disjoint, test_bit-high, test_bit-low, bit_and-u8, bit_and-u16,
  test_bit-shifted, test_bit_of_lt, ℤ, pos, negsuc, sub_ℕ, all_below, all_below_sound,
}
use sea_star_os.Arch.Ports.{Ports, inportb, outportb}

pub record Reading : Type 0 where
  pub second : ℕ
  pub minute : ℕ
  pub hour : ℕ
  pub day : ℕ
  pub month : ℕ
  pub year : ℕ
  pub century : ℕ

pub get_rtc_reg : ℕ → Ports → Option (ℕ × Ports)
get_rtc_reg reg m = inportb 0x71 (outportb 0x70 reg m)

pub get_update_in_progress_flag : Ports → Option (ℕ × Ports)
get_update_in_progress_flag m =
    and_then (inportb 0x71 (outportb 0x70 0x0A m)) λ (v, m'). some (bit_and v 0x80, m')

-- `while (get_update_in_progress_flag());`
pub wait_update : ℕ → Ports → Option Ports
wait_update zero m = none
wait_update (suc fuel) m =
    and_then (get_update_in_progress_flag m)
      λ (flag, m'). let rest = wait_update fuel m' in if flag == 0 then some m' else rest

-- the seven registers, in the order in which they are read
pub read_registers : Ports → Option (Reading × Ports)
read_registers m = and_then (get_rtc_reg 0 m) λ (second, m1).
    and_then (get_rtc_reg 2 m1) λ (minute, m2). and_then (get_rtc_reg 4 m2) λ (hour, m3).
      and_then (get_rtc_reg 7 m3) λ (day, m4). and_then (get_rtc_reg 8 m4) λ (month, m5).
        and_then (get_rtc_reg 9 m5) λ (year, m6). and_then (get_rtc_reg 0x32 m6) λ (century, m7).
          some (
            record {
              second = second;
              minute = minute;
              hour = hour;
              day = day;
              month = month;
              year = year;
              century = century;
            },
            m7,
          )

-- the test at the end of the loop, negated
pub same_reading : Reading → Reading → Bool
same_reading r t =
    r.second == t.second
    && r.minute == t.minute
    && r.hour == t.hour
    && r.day == t.day
    && r.month == t.month
    && r.year == t.year
    && r.century == t.century

-- the `do` loop: it reads again until two readings in a row agree
pub read_stable : ℕ → ℕ → Reading → Ports → Option (Reading × Ports)
read_stable zero fuel last m = none
read_stable (suc rounds) fuel last m = and_then (wait_update fuel m) λ m'.
    and_then (read_registers m') λ (r, m'').
      let rest = read_stable rounds fuel r m'' in
      if same_reading last r then some (r, m'') else rest

pub from_bcd : ℕ → ℕ
from_bcd v = bit_and v 0x0F + v / 16 * 10

-- bit 7 of the hour stays as it is
pub hour_from_bcd : ℕ → ℕ
hour_from_bcd v = u8 (bit_or (bit_and v 0x0F + bit_and v 0x70 / 16 * 10) (bit_and v 0x80))

pub convert : ℕ → Reading → Reading
convert register_b r =
    if bit_and register_b 4 == 0
    then record {
      second = u8 (from_bcd r.second);
      minute = u8 (from_bcd r.minute);
      hour = hour_from_bcd r.hour;
      day = u8 (from_bcd r.day);
      month = u8 (from_bcd r.month);
      year = from_bcd r.year;
      century = from_bcd r.century;
    }
    else r

pub read_rtc : ℕ → ℕ → Ports → Option (Reading × Ports)
read_rtc rounds fuel m = and_then (wait_update fuel m) λ m1.
    and_then (read_registers m1) λ (first, m2).
      and_then (read_stable rounds fuel first m2) λ (r, m3).
        and_then (get_rtc_reg 0x0B m3) λ (register_b, m4).
          let c = convert register_b r in some (record c { year = c.year + c.century * 100 }, m4)
