-- ===== src/Libc/Time/Inverse.antt =====
-- mktime undoes gmtime_r; libc/time/mktime.c and gmtime_r.c.
use rhombus.Prelude.{
  ℕ, suc, ◌+◌, ◌-◌, ◌*◌, ◌/◌, ◌%◌, ◌^◌, ◌≤◌, ◌<◌, ◌≡◌, ◌⊎◌, refl, Bool, true, false, arith, ltb,
  Bool-cases, inl, inr, if◌then◌else◌, ap, ◌∙◌, Option, none, some, List, [], ◌∷◌, get_or, ◌==◌,
  All, All-map, ltb→lt, lt→ltb,
}
use rhombus.Libc.Time.{
  Tm, leapyear, year_loop, month_limit, month_limit_leap, month_loop, month_of, broken_down,
  gmtime_r, mktime,
}
use rhombus.Libc.Time.Years.{days_before, leap_years, year_days-bounds, year_loop-DayOfYear}

month_loop-past :
    (limits : List ℕ) (day i : ℕ) → All (λ l. day < l) limits → month_loop limits day i ≡ none
unfolding month_loop
month_loop-past [] day i h = refl
month_loop-past (l ∷ limits) day i h =
    rw (lt→ltb day l h.0) (month_loop-past limits day (suc i) h.1)

month_loop_stop :
    (limits : List ℕ) (day : ℕ) → ltb day 32 ≡ false → month_loop (32 ∷ limits) day 0 ≡ some 0
unfolding month_loop
month_loop_stop limits day h = rw h refl

month_of_step :
    (limits : List ℕ) (day : ℕ) (o : Option ℕ)
    → month_loop limits day 0 ≡ o
    → month_of limits day ≡ elim o [
      | none ↦ none
      | some i ↦ some (i, day - (if i == 0 then 0 else get_or limits (i - 1) 0))
    ]
unfolding month_of
month_of_step limits day o e =
    ap
      (λ o. elim o [
        | none ↦ none
        | some i ↦ some (i, day - (if i == 0 then 0 else get_or limits (i - 1) 0))
      ])
      e

-- The month of a day: none below 32, and the first month from there on.
month_of-first :
    (limits : List ℕ) (day : ℕ)
    → All (λ l. 32 ≤ l) limits
    → month_of (32 ∷ limits) day ≡ (if ltb day 32 then none else some (0, day))
month_of-first limits day h = elim (Bool-cases (ltb day 32)) [
  | inl early ↦
      let below : day < 32 = ltb→lt day 32 early in
      month_of_step (32 ∷ limits) day none
        (month_loop-past (32 ∷ limits) day 0 (below, All-map (λ l p. omega arith) limits h))
      ∙ rw early refl
  | inr late ↦
      let whole : day - 0 ≡ day = omega arith in
      month_of_step (32 ∷ limits) day (some 0) (month_loop_stop limits day late)
      ∙ rw (late, whole) refl
]

month_of-either :
    (leap : Bool) (day : ℕ)
    → month_of (if leap then month_limit_leap else month_limit) day
      ≡ (if ltb day 32 then none else some (0, day))
unfolding month_limit month_limit_leap
month_of-either true day = month_of-first _ day (omega arith)
month_of-either false day = month_of-first _ day (omega arith)

gmtime_r_step :
    (timer yday year : ℕ) (o : Option (ℕ × ℕ))
    → year_loop (timer / 86400 + 25567) (timer / 86400 + 25567) 0 ≡ (yday, year)
    → month_of (if leapyear year then month_limit_leap else month_limit) yday ≡ o
    → gmtime_r timer
      ≡ elim o [ none ↦ none | some (mon, mday) ↦ some (broken_down timer yday year mon mday) ]
unfolding gmtime_r
gmtime_r_step timer yday year o e f =
    ap
      (λ p. elim (month_of (if leapyear p.1 then month_limit_leap else month_limit) p.0) [
        | none ↦ none
        | some (mon, mday) ↦ some (broken_down timer p.0 p.1 mon mday)
      ])
      e
    ∙ ap
        (λ o. elim o [
          | none ↦ none
          | some (mon, mday) ↦ some (broken_down timer yday year mon mday)
        ])
        f

time_of_day :
    (t : ℕ)
    → t % 60
        + (t - t % 60) % 3600 / 60 * 60
        + (t - t % 60 - (t - t % 60) % 3600 / 60 * 60) % 86400 / 3600 * 3600
      ≡ t % 86400
time_of_day t = omega arith

since_1969 : (year yday day : ℕ) → yday ≤ 366 → days_before year + yday ≡ day + 25567 → 69 ≤ year
since_1969 year yday day h e = omega arith

leaps :
    (year : ℕ)
    → 69 ≤ year
    → leap_years year + (year - 1) / 100 ≡ (year - 69) / 4 + (year + 299) / 400 + 17
leaps year h = omega arith

-- The sum that mktime takes, from what the two quotients of leap years and the day of the year are.
sum_word :
    (timer day tod yday year leap q4 q100 q400 : ℕ)
    → timer ≡ day * 86400 + tod
    → timer < 2 ^ 31
    → 69 ≤ year
    → year < 200
    → q100 ≤ 1
    → leap + q100 ≡ q4 + q400 + 17
    → 365 * year + leap + yday ≡ day + 25567
    → (tod
          + yday * 86400
          + (year + 2 ^ 32 - 70) * 31536000
          + q4 * 86400
          + (2 ^ 32 - q100 * 86400)
          + q400 * 86400)
        % 2 ^ 32
      ≡ timer
sum_word timer day tod yday year leap q4 q100 q400 a word b c d e f = omega arith

-- The numbers behind mktime.
counted :
    (timer yday year mon mday : ℕ)
    → timer < 2 ^ 31
    → yday ≤ 366
    → days_before year + yday ≡ timer / 86400 + 25567
    → mktime (broken_down timer yday year mon mday) ≡ timer
unfolding mktime broken_down
counted timer yday year mon mday word short same =
    let late = since_1969 year yday (timer / 86400) short same in
    rw (time_of_day timer) (
      sum_word timer (timer / 86400) (timer % 86400) yday year (leap_years year) _ _ _ (omega arith)
        word late (omega arith) (omega arith) (leaps year late) same)

-- gmtime_r of a time from 1970 on, as an int holds it: where the day of the year is below 32 it reads
-- past its table of months; otherwise it gives a broken-down time that mktime converts back to the
-- time, whose month is the first and whose day of the month is its day of the year.
pub mktime-gmtime_r :
    (timer : ℕ)
    → timer < 2 ^ 31
    → ((tm : Tm) × (gmtime_r timer ≡ some tm)
        × (mktime tm ≡ timer)
        × (tm.tm_mon ≡ 0)
        × (tm.tm_mday ≡ tm.tm_yday)
        × (31 < tm.tm_yday))
      ⊎ ((yday : ℕ) × (year : ℕ) × (year_loop (timer / 86400 + 25567) (timer / 86400 + 25567) 0
            ≡ (yday, year))
          × (yday < 32)
          × (gmtime_r timer ≡ none))
unfolding broken_down
mktime-gmtime_r timer word =
    let day = timer / 86400 + 25567 in
    let (yday, year, e, d) = year_loop-DayOfYear day day 0 (omega arith) in
    let (_, short) = year_days-bounds year in
    let month = month_of-either (leapyear year) yday in
    elim (Bool-cases (ltb yday 32)) [
      | inl early ↦ inr (
        yday,
        year,
        e,
        ltb→lt yday 32 early,
        gmtime_r_step timer yday year none e (month ∙ rw early refl),
      )
      | inr late ↦ inl (
        broken_down timer yday year 0 yday,
        gmtime_r_step timer yday year (some (0, yday)) e (month ∙ rw late refl),
        counted timer yday year 0 yday word (omega (arith, d.within)) (omega (arith, d.same)),
        refl,
        refl,
        ground arith,
      )
    ]
