-- ===== src/Clock/Time.antt =====
-- What cmosTime reads from a clock.
use systems_programming_a.Prelude.{
  ℕ, zero, suc, ◌+◌, ◌*◌, ◌/◌, ◌%◌, ◌<◌, ◌≤◌, ◌≡◌, ◌∙◌, refl, ap, ap₂, arith, Bool, true, false,
  some, leb, Bool-cases, inl, inr,
}
use systems_programming_a.Clock.Defs.{
  Clock, RtcDate, cmos_stata, cmos_statb, cmos_get_real_time_clock, is_same_date, is_updating,
  stable_date, conv, convert, is_bcd, cmos_time,
}

-- A number as the clock has it: its two digits in half a byte each, or the number itself.
unfoldable pub code : Bool → ℕ → ℕ
code true x = x / 10 * 16 + x % 10
code false x = x

-- No field has more than two digits.
abbrev pub IsShort : RtcDate → Type 0
IsShort d =
    (d.second < 100)
    × (d.minute < 100)
    × (d.hour < 100)
    × (d.day < 100)
    × (d.month < 100)
    × (d.year < 100)

abbrev pub encode : Bool → RtcDate → RtcDate
encode b d = record {
  second = code b d.second;
  minute = code b d.minute;
  hour = code b d.hour;
  day = code b d.day;
  month = code b d.month;
  year = code b d.year;
}

-- At each read, the clock answers with the field of the date that it has then.
pub record Displays (clock : Clock) (b : Bool) (shown : ℕ → RtcDate) : Type 0 where
  pub second : (t : ℕ) → clock t 0x00 ≡ code b (shown t).second
  pub minute : (t : ℕ) → clock t 0x02 ≡ code b (shown t).minute
  pub hour : (t : ℕ) → clock t 0x04 ≡ code b (shown t).hour
  pub day : (t : ℕ) → clock t 0x07 ≡ code b (shown t).day
  pub month : (t : ℕ) → clock t 0x08 ≡ code b (shown t).month
  pub year : (t : ℕ) → clock t 0x09 ≡ code b (shown t).year

-- In 13 reads from `t` on, the date changes at most once.
abbrev pub ChangesOnce : (ℕ → RtcDate) → ℕ → Type 0
ChangesOnce shown t =
    (k : ℕ) × ((s : ℕ) → t ≤ s → s < k → shown s ≡ shown t)
    × ((s : ℕ) → k ≤ s → t ≤ s → s < t + 13 → shown s ≡ shown (t + 12))

conv-code : (x : ℕ) → x < 100 → conv (code true x) ≡ x
unfolding code
conv-code x h = omega (arith, h)

convert-encode : (b : Bool) (d : RtcDate) → IsShort d → convert b (encode b d) ≡ d
unfolding convert code
convert-encode false d h = refl
convert-encode true d h =
    rw
      (
        conv-code d.second h.0,
        conv-code d.minute h.1,
        conv-code d.hour h.2,
        conv-code d.day h.3,
        conv-code d.month h.4,
        conv-code d.year h.5,
      )
      refl

same_date : (d : RtcDate) → is_same_date d d ≡ true
same_date d = ground arith

-- Six reads while the date stays read that date.
steady_read :
    (clock : Clock) (b : Bool) (shown : ℕ → RtcDate) (d : RtcDate) (t : ℕ)
    → Displays clock b shown
    → ((s : ℕ) → t ≤ s → s < t + 6 → shown s ≡ d)
    → cmos_get_real_time_clock clock t ≡ encode b d
unfolding cmos_get_real_time_clock
steady_read clock b shown d t h q =
    rw
      (
        h.second t,
        h.minute (t + 1),
        h.hour (t + 2),
        h.day (t + 3),
        h.month (t + 4),
        h.year (t + 5),
        q t (omega arith) (omega arith),
        q (t + 1) (omega arith) (omega arith),
        q (t + 2) (omega arith) (omega arith),
        q (t + 3) (omega arith) (omega arith),
        q (t + 4) (omega arith) (omega arith),
        q (t + 5) (omega arith) (omega arith),
      )
      refl

is_same_date-true : (x y : RtcDate) → is_same_date x y ≡ true → x ≡ y
is_same_date-true x y e = ground arith

-- A date that is read twice is not torn.
read_twice :
    (clock : Clock) (b : Bool) (shown : ℕ → RtcDate) (t : ℕ)
    → Displays clock b shown
    → ChangesOnce shown t
    → cmos_get_real_time_clock clock t ≡ cmos_get_real_time_clock clock (t + 7)
    → (s : ℕ) × (cmos_get_real_time_clock clock t ≡ encode b (shown s))
read_twice clock b shown t h (k, before, after) e = elim (Bool-cases (leb (t + 6) k)) [
  | inl l ↦ (t, steady_read clock b shown (shown t) t h (λ s u v. before s u (ground arith)))
  | inr l ↦ (
    t + 12,
    e
        ∙ steady_read clock b shown (shown (t + 12)) (t + 7) h
            (λ s u v. after s (ground arith) (omega (arith, u)) (omega (arith, v))),
  )
]

-- From the read `last` on, for 26 reads, the clock stays as it is.
abbrev pub IsQuiet : Clock → (ℕ → RtcDate) → ℕ → Type 0
IsQuiet clock shown last =
    (s : ℕ)
    → last ≤ s
    → s < last + 26
    → (is_updating (clock s cmos_stata) ≡ false) × (shown s ≡ shown last)

quiet-same :
    (clock : Clock) (b : Bool) (shown : ℕ → RtcDate) (last t : ℕ)
    → Displays clock b shown
    → IsQuiet clock shown last
    → last ≤ t
    → t < last + 13
    → is_same_date (cmos_get_real_time_clock clock t) (cmos_get_real_time_clock clock (t + 7))
      ≡ true
quiet-same clock b shown last t h q l u =
    ap₂ is_same_date
      (steady_read clock b shown (shown last) t h
        (λ s v w. (q s (omega (arith, l, v)) (omega (arith, u, w))).1))
      (steady_read clock b shown (shown last) (t + 7) h
        (λ s v w. (q s (omega (arith, l, v)) (omega (arith, u, w))).1))
    ∙ same_date (encode b (shown last))

-- A round for each read before the quiet ones, and one more, is enough.
stable_date-shown :
    (clock : Clock) (b : Bool) (shown : ℕ → RtcDate) (last fuel t : ℕ)
    → Displays clock b shown
    → ((t : ℕ) → ChangesOnce shown t)
    → IsQuiet clock shown last
    → t < last + 13
    → last < t + fuel
    → 0 < fuel
    → (s : ℕ) × (stable_date clock fuel t ≡ some (encode b (shown s)))
unfolding stable_date
stable_date-shown clock b shown last zero t h c q u l z = absurd (omega arith)
stable_date-shown clock b shown last (suc fuel) t h c q u l z =
    let t1 = cmos_get_real_time_clock clock t in
    let t2 = cmos_get_real_time_clock clock (t + 7) in
    elim (Bool-cases (is_updating (clock (t + 6) cmos_stata))) [
      | inl up ↦
          let f : t < last = ground (arith, q (t + 6)) in
          let (s, r) =
            stable_date-shown clock b shown last fuel (t + 7) h c q (omega (arith, f))
              (omega (arith, l)) (omega (arith, f, l)) in
          (s, rw up r)
      | inr up ↦ elim (Bool-cases (is_same_date t1 t2)) [
        | inl same ↦
            let (s, r) = read_twice clock b shown t h (c t) (is_same_date-true t1 t2 same) in
            (s, rw (up, same) (ap some r))
        | inr differ ↦
            let f : t < last = ground (arith, quiet-same clock b shown last t h q) in
            let (s, r) =
              stable_date-shown clock b shown last fuel (t + 13) h c q (omega (arith, f))
                (omega (arith, l)) (omega (arith, f, l)) in
            (s, rw (up, differ) r)
      ]
    ]

-- cmosTime of a clock whose date may change while it is read, once in 13 reads at most, and whose
-- fields have two digits, in the code that its register B names: once the clock has no update in
-- progress and keeps its date for 26 reads from the read number `last` on, more than `last` rounds are
-- enough for cmosTime to end, and what it gives, with 2000 taken off the year, is a date that the clock
-- had at one of the reads.
pub cmos_time_lem :
    (clock : Clock) (b : Bool) (shown : ℕ → RtcDate) (last fuel : ℕ)
    → is_bcd (clock 0 cmos_statb) ≡ b
    → ((t : ℕ) → IsShort (shown t))
    → Displays clock b shown
    → ((t : ℕ) → ChangesOnce shown t)
    → IsQuiet clock shown last
    → last < fuel
    → (s : ℕ) × (cmos_time fuel clock ≡ some (record (shown s) { year = (shown s).year + 2000 }))
unfolding cmos_time
cmos_time_lem clock b shown last fuel m i h c q l =
    let (s, r) =
      stable_date-shown clock b shown last fuel 1 h c q (omega arith) (omega (arith, l))
        (omega (arith, l)) in
    let e = convert-encode b (shown s) (i s) in (s, rw (r, m, e) refl)
