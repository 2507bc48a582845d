-- ===== src/Dates.antt =====
-- internal/model/dates.go: calendar dates as days since 1970-01-01, and the Europe/Zurich rule.
-- The day counts and seconds are exact integers, which is the code while none of them passes the
-- range of an int64. A year may be negative; a month and a day are numbers, since every date comes
-- from ParseDate or from a day count.
pub mod Civil
pub mod Calendar
pub mod Text
pub mod Zurich
pub mod RoundTrip
pub mod Order
pub mod Offset
mod Tests
use integrations_challenge.Prelude.{
  ℕ, ◌+◌, ◌-◌, ◌*◌, ◌/◌, ◌%◌, Bool, true, false, not, ◌&&◌, ◌||◌, ltb, leb, ◌==◌, if◌then◌else◌,
}
use integrations_challenge.Prelude.Int.{
  ℤ, pos, negsuc, ◌+ℤ◌, ◌-ℤ◌, ◌*ℕ◌, quot, rem, ltb_ℤ, leb_ℤ, ◌==ℤ◌, pos_part,
}

pub record Date : Type 0 where
  pub year : ℤ
  pub month : ℕ
  pub day : ℕ

-- floorDiv, by a positive divisor.
unfoldable pub floor_div : ℤ → ℕ → ℤ
floor_div a b =
    let q = quot a b in if not (rem a b ==ℤ pos 0) && ltb_ℤ a (pos 0) then q -ℤ pos 1 else q

-- mod, by a positive divisor.
unfoldable pub floor_mod : ℤ → ℕ → ℤ
floor_mod a b = let r = rem a b in if ltb_ℤ r (pos 0) then r +ℤ pos b else r

-- isLeap
unfoldable pub is_leap : ℤ → Bool
is_leap year = rem year 4 ==ℤ pos 0 && (not (rem year 100 ==ℤ pos 0) || rem year 400 ==ℤ pos 0)

-- daysInMonth
unfoldable pub days_in_month : ℤ → ℕ → ℕ
days_in_month year month =
    if (month == 1)
      || (month == 3)
      || (month == 5)
      || (month == 7)
      || (month == 8)
      || (month == 10)
      || (month == 12)
    then 31
    else if (month == 4) || (month == 6) || (month == 9) || (month == 11)
    then 30
    else if month == 2
    then (if is_leap year then 29 else 28)
    else 0

-- Within an era of 400 years the numbers are not negative: the day of the era from the year of the
-- era, the month counted from March, and the day.
unfoldable pub day_of_era : ℕ → ℕ → ℕ → ℕ
day_of_era yoe mp day = yoe * 365 + yoe / 4 - yoe / 100 + ((153 * mp + 2) / 5 + (day - 1))

-- daysFromCivil
unfoldable pub days_from_civil : ℤ → ℕ → ℕ → ℤ
days_from_civil y m d =
    let yy = if leb m 2 then y -ℤ pos 1 else y in
    let era = floor_div yy 400 in
    let yoe = yy -ℤ era *ℕ 400 in
    let doe = pos (day_of_era (pos_part yoe) ((m + 9) % 12) d) in era *ℕ 146097 +ℤ doe -ℤ pos 719468

-- The year of the era of a day of the era.
unfoldable pub year_of_era : ℕ → ℕ
year_of_era doe = (doe - doe / 1460 + doe / 36524 - doe / 146096) / 365

-- civilFromDays
unfoldable pub civil_from_days : ℤ → Date
civil_from_days z =
    let z' = z +ℤ pos 719468 in
    let era = floor_div z' 146097 in
    let doe = pos_part (z' -ℤ era *ℕ 146097) in
    let yoe = year_of_era doe in
    let yy = pos yoe +ℤ era *ℕ 400 in
    let doy = doe - (365 * yoe + yoe / 4 - yoe / 100) in
    let mp = (5 * doy + 2) / 153 in
    let dd = doy - (153 * mp + 2) / 5 + 1 in
    let mm = mp + 3 in
    if ltb 12 mm
    then record { year = yy +ℤ pos 1; month = mm - 12; day = dd }
    else record { year = yy; month = mm; day = dd }

-- DaysSinceEpoch
abbrev pub days_since_epoch : Date → ℤ
days_since_epoch d = days_from_civil d.year d.month d.day

-- Date.Compare, as -1, 0 or 1.
unfoldable pub compare_date : Date → Date → ℤ
compare_date d o =
    let a = days_since_epoch d in
    let b = days_since_epoch o in if ltb_ℤ a b then negsuc 0 else if ltb_ℤ b a then pos 1 else pos 0

-- Date.Before
unfoldable pub is_before : Date → Date → Bool
unfolding compare_date
is_before d o = ltb_ℤ (compare_date d o) (pos 0)

-- Date.AddDays
unfoldable pub add_days : Date → ℤ → Date
add_days d n = civil_from_days (days_since_epoch d +ℤ n)

-- weekdayOfDays
unfoldable pub weekday_of_days : ℤ → ℕ
unfolding floor_mod
weekday_of_days days = pos_part (floor_mod (days +ℤ pos 4) 7)

-- lastSundayOfMonth
unfoldable pub last_sunday : ℤ → ℕ → Date
last_sunday year month =
    let last = days_from_civil year month (days_in_month year month) in
    civil_from_days (last -ℤ pos (weekday_of_days last))
