-- ===== src/Libc/Time/Tests.antt =====
-- Calendar time at the epoch and in the summer of 2011.
use rhombus.Prelude.{ℕ, ◌+◌, ◌/◌, ◌<◌, ◌≡◌, ◌⊎◌, refl, Option, none, some, arith}
use rhombus.Libc.Time.{Tm, year_loop, gmtime_r, mktime}
use rhombus.Libc.Time.Inverse.{mktime-gmtime_r}

-- 25567 days after the first of January 1900 it is the first of January 1970; the loop gives day 365
-- of 1969.
epoch_year : year_loop 25567 25567 0 ≡ (365, 69)
unfolding year_loop
epoch_year = refl

abbrev weekday_of : Option Tm → Option ℕ
weekday_of none = none
weekday_of (some t) = some t.tm_wday

-- A Thursday.
epoch_weekday : weekday_of (gmtime_r 0) ≡ some 7
unfolding gmtime_r
epoch_weekday = refl

mktime-gmtime_r_example :
    ((tm : Tm) × (gmtime_r 1310000000 ≡ some tm)
      × (mktime tm ≡ 1310000000)
      × (tm.tm_mon ≡ 0)
      × (tm.tm_mday ≡ tm.tm_yday)
      × (31 < tm.tm_yday))
    ⊎ ((yday : ℕ) × (year : ℕ) × (year_loop
            (1310000000 / 86400 + 25567)
            (1310000000 / 86400 + 25567)
            0
          ≡ (yday, year))
        × (yday < 32)
        × (gmtime_r 1310000000 ≡ none))
mktime-gmtime_r_example = mktime-gmtime_r 1310000000 (omega arith)
