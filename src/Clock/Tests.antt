-- ===== src/Clock/Tests.antt =====
-- cmosTime of a clock that goes from 20:14:29 to 20:14:30 on 25 November 2026 while it is read, in
-- digits of half a byte.
use systems_programming_a.Prelude.{ℕ, ◌≡◌, refl, arith, true, some, ltb, ◌==◌, if◌then◌else◌}
use systems_programming_a.Clock.Defs.{Clock, RtcDate, cmos_time}
use systems_programming_a.Clock.Time.{code, Displays, ChangesOnce, IsQuiet, cmos_time_lem}

abbrev date : RtcDate
date = record { second = 30; minute = 14; hour = 20; day = 25; month = 11; year = 26 }

abbrev shown : ℕ → RtcDate
shown t = record date { second = if ltb t 10 then 29 else 30 }

abbrev clock : Clock
clock t register =
    if register == 0x0a
    then (if ltb t 10 then 0x80 else 0)
    else if register == 0x0b
    then 2
    else if register == 0
    then (if ltb t 10 then 0x29 else 0x30)
    else if register == 2
    then 0x14
    else if register == 4
    then 0x20
    else if register == 7
    then 0x25
    else if register == 8
    then 0x11
    else 0x26

clock-Displays : Displays clock true shown
unfolding code
clock-Displays = record {
  second = λ t. ground arith;
  minute = λ t. refl;
  hour = λ t. refl;
  day = λ t. refl;
  month = λ t. refl;
  year = λ t. refl;
}

shown-ChangesOnce : (t : ℕ) → ChangesOnce shown t
shown-ChangesOnce t = (10, λ s u v. ground arith, λ s u v w. ground arith)

clock-IsQuiet : IsQuiet clock shown 10
clock-IsQuiet s u v = (ground arith, ground arith)

cmos_time_lem_example : (s : ℕ) × (cmos_time 11 clock ≡ some (record (shown s) { year = 2026 }))
cmos_time_lem_example =
    cmos_time_lem clock true shown 10 11 refl
      (λ t. (ground arith, omega arith, omega arith, omega arith, omega arith, omega arith))
      clock-Displays shown-ChangesOnce clock-IsQuiet (omega arith)
