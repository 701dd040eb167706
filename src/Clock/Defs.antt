-- ===== src/Clock/Defs.antt =====
-- cmosTime of UoDOS/lapic.c. A clock is what it answers to a read, by the number of reads before and
-- by the register.
use mathlib.Core.Option
use systems_programming_a.Prelude.{
  ℕ, zero, suc, ◌+◌, ◌*◌, ◌/◌, ◌%◌, Bool, ◌&&◌, Option, none, some, ◌==◌, if◌then◌else◌,
}

abbrev pub Clock : Type 0
Clock = ℕ → ℕ → ℕ

-- struct _RtcDate
pub record RtcDate : Type 0 where
  pub second : ℕ
  pub minute : ℕ
  pub hour : ℕ
  pub day : ℕ
  pub month : ℕ
  pub year : ℕ

-- CMOS_STATA and CMOS_STATB
abbrev pub cmos_stata : ℕ
cmos_stata = 0x0a

abbrev pub cmos_statb : ℕ
cmos_statb = 0x0b

-- SECS, MINS, HOURS, DAY, MONTH and YEAR, one read after the other.
unfoldable pub cmos_get_real_time_clock : Clock → ℕ → RtcDate
cmos_get_real_time_clock clock t = record {
  second = clock t 0x00;
  minute = clock (t + 1) 0x02;
  hour = clock (t + 2) 0x04;
  day = clock (t + 3) 0x07;
  month = clock (t + 4) 0x08;
  year = clock (t + 5) 0x09;
}

-- `memcmp(&t1, &t2, sizeof(t1)) == 0`: the structure has no padding.
abbrev pub is_same_date : RtcDate → RtcDate → Bool
is_same_date a b =
    a.second == b.second
    && a.minute == b.minute
    && a.hour == b.hour
    && a.day == b.day
    && a.month == b.month
    && a.year == b.year

-- CMOS_UIP is the bit 7 of the register.
abbrev pub is_updating : ℕ → Bool
is_updating a = a / 128 % 2 == 1

-- The loop from the read `t` on, with `fuel` rounds at most.
unfoldable pub stable_date : Clock → ℕ → ℕ → Option RtcDate
unfolding cmos_get_real_time_clock
stable_date clock zero t = none
stable_date clock (suc fuel) t =
    let t1 = cmos_get_real_time_clock clock t in
    let t2 = cmos_get_real_time_clock clock (t + 7) in
    let continued = stable_date clock fuel (t + 7) in
    let again = stable_date clock fuel (t + 13) in
    if is_updating (clock (t + 6) cmos_stata)
    then continued
    else if is_same_date t1 t2
    then some t1
    else again

-- CONV
abbrev pub conv : ℕ → ℕ
conv x = x / 16 * 10 + x % 16

unfoldable pub convert : Bool → RtcDate → RtcDate
convert bcd d =
    if bcd
    then record {
      second = conv d.second;
      minute = conv d.minute;
      hour = conv d.hour;
      day = conv d.day;
      month = conv d.month;
      year = conv d.year;
    }
    else d

-- `(sb & (1 << 2)) == 0`
abbrev pub is_bcd : ℕ → Bool
is_bcd sb = sb / 4 % 2 == 0

unfoldable pub cmos_time : ℕ → Clock → Option RtcDate
unfolding stable_date convert
cmos_time fuel clock =
    Option.map
      (λ d. let e = convert (is_bcd (clock 0 cmos_statb)) d in record e { year = e.year + 2000 })
      (stable_date clock fuel 1)
