-- ===== src/Dates/Civil.antt =====
-- internal/model/dates.go: daysFromCivil and civilFromDays undo one another.
use integrations_challenge.Prelude.{
  ℕ, ◌+◌, ◌-◌, ◌*◌, ◌/◌, ◌%◌, ◌≤◌, ◌<◌, ◌≡◌, ◌≢◌, ◌⊎◌, inl, inr, refl, ap, ◌∙◌, true, false, ltb,
  leb, if◌then◌else◌, if_elim, ltb→lt, arith,
}
use integrations_challenge.Prelude.Int.{
  ℤ, pos, negsuc, ◌+ℤ◌, ◌-ℤ◌, ◌*ℕ◌, pos_part, neg_part, int_laws,
}
use integrations_challenge.Dates.{
  Date, floor_div, day_of_era, days_from_civil, year_of_era, civil_from_days, days_since_epoch,
}

-- Division of an integer into eras and a rest is unique.
floor_400 :
    (q : ℤ) (r : ℕ)
    → r < 400
    → let a = q *ℕ 400 +ℤ pos r in (floor_div a 400 ≡ q) × (pos_part (a -ℤ q *ℕ 400) ≡ r)
unfolding floor_div ◌+ℤ◌ ◌-ℤ◌
floor_400 (pos q) r h = ground arith
floor_400 (negsuc q) r h = ground arith

floor_146097 :
    (q : ℤ) (r : ℕ)
    → r < 146097
    → let a = q *ℕ 146097 +ℤ pos r in (floor_div a 146097 ≡ q) × (pos_part (a -ℤ q *ℕ 146097) ≡ r)
unfolding floor_div ◌+ℤ◌ ◌-ℤ◌
floor_146097 (pos q) r h = ground arith
floor_146097 (negsuc q) r h = ground arith

-- Every integer has such a division.
eras : (a : ℤ) → (q : ℤ) × (r : ℕ) × (r < 146097) × (a ≡ q *ℕ 146097 +ℤ pos r)
unfolding ◌+ℤ◌
eras (pos n) = (pos (n / 146097), n % 146097, omega arith, ground arith)
eras (negsuc n) = (negsuc (n / 146097), 146096 - n % 146097, omega arith, ground arith)

pub years_400 : (a : ℤ) → (q : ℤ) × (r : ℕ) × (r < 400) × (a ≡ q *ℕ 400 +ℤ pos r)
unfolding ◌+ℤ◌
years_400 (pos n) = (pos (n / 400), n % 400, omega arith, ground arith)
years_400 (negsuc n) = (negsuc (n / 400), 399 - n % 400, omega arith, ground arith)

-- The year of the era is found from a day of it.
pub year_of_era_lem :
    (yoe doy : ℕ)
    → yoe < 400
    → doy < 365 ⊎ ((doy ≡ 365) × (yoe % 4 ≡ 3) × ((yoe % 100 ≢ 99) ⊎ (yoe ≡ 399)))
    → year_of_era (yoe * 365 + yoe / 4 - yoe / 100 + doy) ≡ yoe
unfolding year_of_era
year_of_era_lem yoe doy hy (inl hd) = omega arith
year_of_era_lem yoe doy hy (inr (hd, four, inl other)) = omega arith
year_of_era_lem yoe doy hy (inr (hd, four, inr last)) = omega arith

-- Each day of an era lies in the year found.
abbrev start : ℕ → ℕ
start yoe = yoe * 365 + yoe / 4 - yoe / 100

era_day :
    (doe : ℕ)
    → doe < 146097
    → (year_of_era doe < 400)
      × (start (year_of_era doe) ≤ doe)
      × (doe ≤ start (year_of_era doe) + 365)
unfolding year_of_era
era_day doe h = (omega arith, omega arith, omega arith)

-- The month and the day from the day of the year.
month_day :
    (doy : ℕ) → doy ≤ 365 → let mp = (5 * doy + 2) / 153 in (mp < 12) × ((153 * mp + 2) / 5 ≤ doy)
month_day doy h = (omega arith, omega arith)

-- civilFromDays within an era, and daysFromCivil.
unfoldable pub civil_at : ℤ → ℕ → Date
civil_at era doe =
    let yoe = year_of_era doe in
    let yy = pos yoe +ℤ era *ℕ 400 in
    let doy = doe - (365 * yoe + yoe / 4 - yoe / 100) in
    let mp = (5 * doy + 2) / 153 in
    let dd = doy - (153 * mp + 2) / 5 + 1 in
    let mm = mp + 3 in
    if ltb 12 mm
    then record { year = yy +ℤ pos 1; month = mm - 12; day = dd }
    else record { year = yy; month = mm; day = dd }

pub civil_from_days-at :
    (z era : ℤ) (doe : ℕ)
    → doe < 146097
    → z +ℤ pos 719468 ≡ era *ℕ 146097 +ℤ pos doe
    → civil_from_days z ≡ civil_at era doe
unfolding civil_from_days civil_at
civil_from_days-at z era doe h e = let f = floor_146097 era doe h in rw (e, f.0, f.1) refl

-- The year that starts in March.
abbrev pub march_year : ℤ → ℕ → ℤ
march_year y m = if leb m 2 then y -ℤ pos 1 else y

pub days_from_civil-at :
    (y era : ℤ) (m d yoe : ℕ)
    → yoe < 400
    → march_year y m ≡ era *ℕ 400 +ℤ pos yoe
    → days_from_civil y m d ≡ era *ℕ 146097 +ℤ pos (day_of_era yoe ((m + 9) % 12) d) -ℤ pos 719468
unfolding days_from_civil
days_from_civil-at y era m d yoe h e = let f = floor_400 era yoe h in rw (e, f.0, f.1) refl

-- A date within an era has its day of the era.
civil_at_days :
    (era : ℤ) (doe : ℕ)
    → doe < 146097
    → let c = civil_at era doe in
      days_from_civil c.year c.month c.day ≡ era *ℕ 146097 +ℤ pos doe -ℤ pos 719468
unfolding civil_at day_of_era
civil_at_days era doe h =
    let yoe = year_of_era doe in
    let yy = pos yoe +ℤ era *ℕ 400 in
    let doy = doe - (365 * yoe + yoe / 4 - yoe / 100) in
    let mp = (5 * doy + 2) / 153 in
    let dd = doy - (153 * mp + 2) / 5 + 1 in
    let (hy, low, high) = era_day doe h in
    let whole : day_of_era yoe mp dd ≡ doe = omega (arith, month_day doy (omega arith)) in
    let (few, _) = month_day doy (omega arith) in
    if_elim
      (λ (c : Date). days_from_civil c.year c.month c.day ≡ era *ℕ 146097 +ℤ pos doe -ℤ pos 719468)
      (ltb 12 (mp + 3))
      (λ late.
        let over = ltb→lt 12 (mp + 3) late in
        let early : leb (mp + 3 - 12) 2 ≡ true = ground arith in
        let same : march_year (yy +ℤ pos 1) (mp + 3 - 12) ≡ era *ℕ 400 +ℤ pos yoe =
          rw early (omega int_laws) in
        let month : (mp + 3 - 12 + 9) % 12 ≡ mp = omega arith in
        days_from_civil-at (yy +ℤ pos 1) era (mp + 3 - 12) dd yoe hy same
        ∙ ap (λ (t : ℕ). era *ℕ 146097 +ℤ pos (day_of_era yoe t dd) -ℤ pos 719468) month
        ∙ ap (λ (t : ℕ). era *ℕ 146097 +ℤ pos t -ℤ pos 719468) whole)
      (λ early.
        let late : leb (mp + 3) 2 ≡ false = ground arith in
        let same : march_year yy (mp + 3) ≡ era *ℕ 400 +ℤ pos yoe = rw late (omega int_laws) in
        let month : (mp + 3 + 9) % 12 ≡ mp = omega arith in
        days_from_civil-at yy era (mp + 3) dd yoe hy same
        ∙ ap (λ (t : ℕ). era *ℕ 146097 +ℤ pos (day_of_era yoe t dd) -ℤ pos 719468) month
        ∙ ap (λ (t : ℕ). era *ℕ 146097 +ℤ pos t -ℤ pos 719468) whole)

-- A day count is the day count of the date that AddDays and the instants make of it.
pub days_from_civil-civil_from_days : (z : ℤ) → days_since_epoch (civil_from_days z) ≡ z
days_from_civil-civil_from_days z =
    let (era, doe, h, e) = eras (z +ℤ pos 719468) in
    rw (civil_from_days-at z era doe h e, civil_at_days era doe h)
      (omega (int_laws, ap pos_part e, ap neg_part e))
