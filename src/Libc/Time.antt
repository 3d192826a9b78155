-- ===== src/Libc/Time.antt =====
-- Calendar time: libc/time/gmtime_r.c and mktime.c, for times that are not negative.
pub mod Years
pub mod Inverse
mod Tests
use rhombus.Prelude.{
  ℕ, zero, suc, ◌+◌, ◌-◌, ◌*◌, ◌/◌, ◌%◌, ◌^◌, Bool, true, false, not, ◌&&◌, ◌||◌, Option, none,
  some, List, [], ◌∷◌, ◌==◌, ltb, leb, if◌then◌else◌, get_or,
}

-- `struct tm`
pub record Tm : Type 0 where
  pub tm_offset : ℕ
  pub tm_isdst : ℕ
  pub tm_year : ℕ
  pub tm_mon : ℕ
  pub tm_yday : ℕ
  pub tm_mday : ℕ
  pub tm_wday : ℕ
  pub tm_hour : ℕ
  pub tm_min : ℕ
  pub tm_sec : ℕ

-- `leapyear`, for a year since 1900: the source takes 100 off, which leaves the remainders by 4 and
-- 100 zero where they are, and 300 more leave that by 400.
pub leapyear : ℕ → Bool
leapyear year = (year % 4 == 0 && not (year % 100 == 0)) || ((year + 300) % 400 == 0)

-- `leapyear(year) ? 366 : 365`
pub year_days : ℕ → ℕ
unfolding leapyear
year_days year = if leapyear year then 366 else 365

pub month_limit : List ℕ
month_limit = 32 ∷ 60 ∷ 91 ∷ 121 ∷ 152 ∷ 182 ∷ 213 ∷ 244 ∷ 274 ∷ 305 ∷ 335 ∷ 366 ∷ []

pub month_limit_leap : List ℕ
month_limit_leap = 32 ∷ 61 ∷ 92 ∷ 122 ∷ 153 ∷ 183 ∷ 214 ∷ 245 ∷ 275 ∷ 306 ∷ 336 ∷ 367 ∷ []

-- The loop over the years. It takes a year off in each round, so the number of days is enough fuel.
pub year_loop : ℕ → ℕ → ℕ → ℕ × ℕ
unfolding year_days
year_loop zero day year = (day, year)
year_loop (suc fuel) day year =
    let rest = year_loop fuel (day - year_days year) (suc year) in
    if ltb (year_days year) day then rest else (day, year)

-- The loop over the months, from month `i` on; none if it runs past the array.
pub month_loop : List ℕ → ℕ → ℕ → Option ℕ
month_loop [] mday i = none
month_loop (limit ∷ limits) mday i =
    let rest = month_loop limits mday (suc i) in if ltb mday limit then rest else some i

-- The month and the day of the month.
pub month_of : List ℕ → ℕ → Option (ℕ × ℕ)
unfolding month_loop
month_of limits day = elim (month_loop limits day 0) [
  | none ↦ none
  | some i ↦ some (i, day - (if i == 0 then 0 else get_or limits (i - 1) 0))
]

-- The fields of the result.
pub broken_down : ℕ → ℕ → ℕ → ℕ → ℕ → Tm
broken_down timer yday year mon mday =
    let sec = timer % 60 in
    let timer1 = timer - sec in
    let min = (timer1 % 3600) / 60 in
    let timer2 = timer1 - min * 60 in
    let hour = (timer2 % 86400) / 3600 in
    record {
      tm_offset = 0;
      tm_isdst = 0;
      tm_year = year;
      tm_mon = mon;
      tm_yday = yday;
      tm_mday = mday;
      tm_wday = 4 + (timer / 86400 + 25567) % 7;
      tm_hour = hour;
      tm_min = min;
      tm_sec = sec;
    }

-- `gmtime_r`; none where it reads past its tables.
pub gmtime_r : ℕ → Option Tm
unfolding year_loop month_of month_limit month_limit_leap leapyear broken_down
gmtime_r timer =
    let day = timer / 86400 + 25567 in
    let (yday, year) = year_loop day day 0 in
    elim (month_of (if leapyear year then month_limit_leap else month_limit) yday) [
      | none ↦ none
      | some (mon, mday) ↦ some (broken_down timer yday year mon mday)
    ]

-- `mktime`, on the bits of an `int`. From 1969 on the quotients are those of numbers that are not
-- negative.
pub mktime : Tm → ℕ
mktime t =
    (t.tm_sec
      + t.tm_min * 60
      + t.tm_hour * 3600
      + t.tm_yday * 86400
      + (t.tm_year + 2 ^ 32 - 70) * 31536000
      + ((t.tm_year - 69) / 4) * 86400
      + (2 ^ 32 - ((t.tm_year - 1) / 100) * 86400)
      + ((t.tm_year + 299) / 400) * 86400)
    % 2 ^ 32
