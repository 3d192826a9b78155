-- ===== src/Libc/Time/Years.antt =====
-- The days that the year loop of libc/time/gmtime_r.c takes off.
use rhombus.Prelude.{
  ℕ, zero, suc, ◌+◌, ◌-◌, ◌*◌, ◌/◌, ◌≤◌, ◌<◌, ◌≡◌, refl, arith, ltb, Bool-cases, inl, inr,
}
use rhombus.Libc.Time.{leapyear, year_days, year_loop}

-- The days before a year since 1900, and the leap years among those before it.
abbrev pub leap_years : ℕ → ℕ
leap_years year = (year + 3) / 4 + (year + 299) / 400 - (year + 99) / 100

abbrev pub days_before : ℕ → ℕ
days_before year = 365 * year + leap_years year

days_before-suc : (year : ℕ) → days_before (suc year) ≡ days_before year + year_days year
unfolding year_days leapyear
days_before-suc year = ground arith

-- A day of a year that the loop gives, for a day since 1900. The first day of a year counts as one
-- more day of the year before, so that the day is at most the length of the year.
pub record DayOfYear (start day yday year : ℕ) : Type 0 where
  pub after : start ≤ year
  pub within : yday ≤ year_days year
  pub same : days_before year + yday ≡ days_before start + day
  pub some_day : 0 < day → 0 < yday

pub year_days-bounds : (year : ℕ) → (365 ≤ year_days year) × (year_days year ≤ 366)
unfolding year_days
year_days-bounds year = ground arith

pub year_loop-DayOfYear :
    (fuel day year : ℕ)
    → day ≤ fuel
    → (yday : ℕ) × (y : ℕ) × (year_loop fuel day year ≡ (yday, y)) × DayOfYear year day yday y
unfolding year_loop
year_loop-DayOfYear zero day year h = (
  day,
  year,
  refl,
  record { after = omega arith; within = omega arith; same = refl; some_day = λ p. p },
)
year_loop-DayOfYear (suc fuel) day year h = elim (Bool-cases (ltb (year_days year) day)) [
  | inr last ↦ (
    day,
    year,
    rw last refl,
    record { after = omega arith; within = ground arith; same = refl; some_day = λ p. p },
  )
  | inl more ↦
      let longer : year_days year < day = ground arith in
      let (long, short) = year_days-bounds year in
      let (yday, y, e, d) =
        year_loop-DayOfYear fuel (day - year_days year) (suc year) (omega arith) in
      (
        yday,
        y,
        rw more e,
        record {
          after = omega (arith, d.after);
          within = d.within;
          same = omega (arith, d.same, days_before-suc year);
          some_day = λ p. d.some_day (omega arith);
        },
      )
]
