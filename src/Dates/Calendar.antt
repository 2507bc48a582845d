-- ===== src/Dates/Calendar.antt =====
-- internal/model/dates.go: a day of the calendar is the date of its day count.
use integrations_challenge.Prelude.{
  ℕ, ◌+◌, ◌-◌, ◌*◌, ◌/◌, ◌%◌, ◌≤◌, ◌<◌, ◌≡◌, ◌≢◌, ◌⊎◌, inl, inr, refl, sym, ap, ◌∙◌, true, false,
  ltb, leb, if◌then◌else◌, lt→ltb, leb→le, Bool-cases, arith,
}
use integrations_challenge.Prelude.Int.{
  ℤ, pos, negsuc, ◌+ℤ◌, ◌-ℤ◌, ◌*ℕ◌, pos_part, neg_part, int_laws,
}
use integrations_challenge.Dates.{
  Date, is_leap, days_in_month, day_of_era, year_of_era, civil_from_days, days_since_epoch,
}
use integrations_challenge.Dates.Civil.{
  years_400, civil_at, civil_from_days-at, march_year, days_from_civil-at, year_of_era_lem,
}

-- A day of the calendar.
pub record IsCalendar (d : Date) : Type 0 where
  pub month_in : (1 ≤ d.month) × (d.month ≤ 12)
  pub day_in : (1 ≤ d.day) × (d.day ≤ days_in_month d.year d.month)

-- What makes the last year of four a leap year, where the year starts in March.
leap_year :
    (era : ℤ) (yoe : ℕ)
    → yoe < 400
    → is_leap (era *ℕ 400 +ℤ pos (yoe + 1)) ≡ true
    → (yoe % 4 ≡ 3) × ((yoe % 100 ≢ 99) ⊎ (yoe ≡ 399))
unfolding is_leap ◌+ℤ◌
leap_year (pos era) yoe hy h = ground arith
leap_year (negsuc era) yoe hy h = ground arith

-- The days of a month, counted from March, end where the next one starts.
month_fits :
    (y : ℤ) (m : ℕ)
    → 1 ≤ m
    → m ≤ 12
    → (153 * ((m + 9) % 12) + 2) / 5 + days_in_month y m ≤ (153 * ((m + 9) % 12 + 1) + 2) / 5
unfolding days_in_month
month_fits y m lo hi = ground arith

month_found :
    (mp k : ℕ)
    → mp < 12
    → (153 * mp + 2) / 5 + k < (153 * (mp + 1) + 2) / 5
    → (5 * ((153 * mp + 2) / 5 + k) + 2) / 153 ≡ mp
month_found mp k h fits = omega arith

-- Only the 29th of February is day 365 of a year that starts in March.
year_fits :
    (y : ℤ) (m d : ℕ)
    → 1 ≤ m
    → m ≤ 12
    → 1 ≤ d
    → d ≤ days_in_month y m
    → let doy = (153 * ((m + 9) % 12) + 2) / 5 + (d - 1) in
      (doy < 365) ⊎ ((doy ≡ 365) × (m ≡ 2) × (is_leap y ≡ true))
unfolding days_in_month
year_fits y m d mlo mhi dlo dhi = ground arith

-- The year, the month from March and the day are found again.
civil_found :
    (era : ℤ) (yoe mp d : ℕ)
    → yoe < 400
    → mp < 12
    → 1 ≤ d
    → (153 * mp + 2) / 5 + d ≤ (153 * (mp + 1) + 2) / 5
    → year_of_era (day_of_era yoe mp d) ≡ yoe
    → let yy = pos yoe +ℤ era *ℕ 400 in
      civil_at era (day_of_era yoe mp d) ≡ (
        if ltb 12 (mp + 3)
        then record { year = yy +ℤ pos 1; month = mp + 3 - 12; day = d }
        else record { year = yy; month = mp + 3; day = d })
unfolding civil_at
civil_found era yoe mp d hy hm hd fits found =
    let doe = day_of_era yoe mp d in
    let doy : doe - (365 * yoe + yoe / 4 - yoe / 100) ≡ (153 * mp + 2) / 5 + (d - 1) =
      unfold day_of_era in omega arith in
    let month : (5 * ((153 * mp + 2) / 5 + (d - 1)) + 2) / 153 ≡ mp =
      month_found mp (d - 1) hm (omega arith) in
    let dd : (153 * mp + 2) / 5 + (d - 1) - (153 * mp + 2) / 5 + 1 ≡ d = omega arith in
    rw (found, doy, month, dd) refl

abbrev date_of : ℤ → ℕ → ℕ → Date
date_of y m d = record { year = y; month = m; day = d }

date_back :
    (y yy : ℤ) (m mp d : ℕ)
    → 1 ≤ m
    → m ≤ 12
    → mp ≡ (m + 9) % 12
    → yy ≡ march_year y m
    → (if ltb 12 (mp + 3) then date_of (yy +ℤ pos 1) (mp + 3 - 12) d else date_of yy (mp + 3) d)
      ≡ date_of y m d
date_back y yy m mp d lo hi e f = elim (Bool-cases (leb m 2)) [
  | inl early ↦
      let small = leb→le m 2 early in
      let over : ltb 12 (mp + 3) ≡ true = lt→ltb 12 (mp + 3) (omega arith) in
      let back : yy ≡ y -ℤ pos 1 = rw early at f in
      let year : yy +ℤ pos 1 ≡ y = omega (int_laws, ap pos_part back, ap neg_part back) in
      let month : mp + 3 - 12 ≡ m = omega arith in rw (over, year, month) refl
  | inr late ↦
      let large : 2 < m = ground arith in
      let under : ltb 12 (mp + 3) ≡ false = ground arith in
      let year : yy ≡ y = rw late at f in
      let month : mp + 3 ≡ m = omega arith in rw (under, year, month) refl
]

module _ (d : Date) (v : IsCalendar d) (era : ℤ) (yoe : ℕ) (hy : yoe < 400)
    (e : march_year d.year d.month ≡ era *ℕ 400 +ℤ pos yoe) where
  abbrev doy : ℕ
  doy = (153 * ((d.month + 9) % 12) + 2) / 5 + (d.day - 1)

  in_year : (doy < 365) ⊎ ((doy ≡ 365) × (yoe % 4 ≡ 3) × ((yoe % 100 ≢ 99) ⊎ (yoe ≡ 399)))
  in_year = elim (year_fits d.year d.month d.day v.month_in.0 v.month_in.1 v.day_in.0 v.day_in.1) [
    | inl short ↦ inl short
    | inr (last, february, leap) ↦
        let two : leb d.month 2 ≡ true = ground arith in
        let back : d.year -ℤ pos 1 ≡ era *ℕ 400 +ℤ pos yoe = rw two at e in
        let year : d.year ≡ era *ℕ 400 +ℤ pos (yoe + 1) =
          omega (int_laws, ap pos_part back, ap neg_part back) in
        let (four, hundred) = leap_year era yoe hy (ap is_leap (sym year) ∙ leap) in
        inr (last, four, hundred)
  ]

  in_era : day_of_era yoe ((d.month + 9) % 12) d.day < 146097
  unfolding day_of_era
  in_era = let short : doy ≤ 365 = ground (arith, in_year) in omega arith

  year_found : year_of_era (day_of_era yoe ((d.month + 9) % 12) d.day) ≡ yoe
  unfolding day_of_era
  year_found = year_of_era_lem yoe doy hy in_year

-- A day of the calendar is the date of its day count.
pub civil_from_days-days_since_epoch :
    (d : Date) → IsCalendar d → civil_from_days (days_since_epoch d) ≡ d
civil_from_days-days_since_epoch d v =
    let m = d.month in
    let (era, yoe, hy, e) = years_400 (march_year d.year m) in
    let mp = (m + 9) % 12 in
    let count = days_from_civil-at d.year era m d.day yoe hy e in
    let shifted : days_since_epoch d +ℤ pos 719468
        ≡ era *ℕ 146097 +ℤ pos (day_of_era yoe mp d.day) =
      omega (int_laws, ap pos_part count, ap neg_part count) in
    let back : pos yoe +ℤ era *ℕ 400 ≡ march_year d.year m =
      omega (int_laws, ap pos_part e, ap neg_part e) in
    let month = month_fits d.year m v.month_in.0 v.month_in.1 in
    civil_from_days-at (days_since_epoch d) era (day_of_era yoe mp d.day) (in_era d v era yoe hy e)
      shifted
    ∙ civil_found era yoe mp d.day hy (omega arith) v.day_in.0 (omega arith)
        (year_found d v era yoe hy e)
    ∙ date_back d.year (pos yoe +ℤ era *ℕ 400) m mp d.day v.month_in.0 v.month_in.1 refl back
