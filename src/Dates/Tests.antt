-- ===== src/Dates/Tests.antt =====
-- Days of the calendar, and the theorems about them applied there.
use integrations_challenge.Prelude.{◌≡◌, ◌↔◌, refl, codes, [], true, some, none, arith}
use integrations_challenge.Prelude.Int.{pos, negsuc, ◌+ℤ◌, ◌-ℤ◌, ◌*ℕ◌, ◌≤ℤ◌}
use integrations_challenge.Dates.{
  Date, floor_div, is_leap, days_in_month, day_of_era, days_from_civil, year_of_era,
  civil_from_days, days_since_epoch, last_sunday, weekday_of_days, floor_mod, is_before,
}
use integrations_challenge.Dates.Civil.{days_from_civil-civil_from_days}
use integrations_challenge.Dates.Calendar.{IsCalendar, civil_from_days-days_since_epoch}
use integrations_challenge.Dates.Text.{
  parse_date, print_date, atoi_fixed, make_date, padded, in_half_open_range,
}
use integrations_challenge.Dates.Zurich.{
  zurich_offset, parse_instant, parse_time, parse_offset, zurich_offset_at, zurich_date_of,
}
use integrations_challenge.Decimal.Text.{format_uint, write_digits}
use integrations_challenge.Dates.RoundTrip.{parse_date-print_date}
use integrations_challenge.Dates.Offset.{zurich_offset-at}
use integrations_challenge.Dates.Order.{Between, in_half_open_range-Between, last_sunday-Between}

abbrev leap_day : Date
leap_day = record { year = pos 2024; month = 2; day = 29 }

leap_day-IsCalendar : IsCalendar leap_day
unfolding days_in_month is_leap
leap_day-IsCalendar = record {
  month_in = (omega arith, omega arith);
  day_in = (omega arith, omega arith);
}

leap_day_count : days_since_epoch leap_day ≡ pos 19782
unfolding days_from_civil floor_div day_of_era ◌+ℤ◌ ◌-ℤ◌
leap_day_count = refl

before_epoch : civil_from_days (negsuc 0) ≡ record { year = pos 1969; month = 12; day = 31 }
unfolding civil_from_days floor_div year_of_era ◌+ℤ◌ ◌-ℤ◌
before_epoch = refl

summer_starts : zurich_offset (codes "2026-03-29") ≡ some 120
unfolding zurich_offset parse_date last_sunday weekday_of_days floor_mod days_in_month is_leap
    civil_from_days year_of_era days_from_civil floor_div day_of_era ◌+ℤ◌ ◌-ℤ◌ atoi_fixed make_date
    is_before padded format_uint write_digits
summer_starts = refl

winter_ends : zurich_offset (codes "2026-03-28") ≡ some 60
unfolding zurich_offset parse_date last_sunday weekday_of_days floor_mod days_in_month is_leap
    civil_from_days year_of_era days_from_civil floor_div day_of_era ◌+ℤ◌ ◌-ℤ◌ atoi_fixed make_date
    is_before padded format_uint write_digits
winter_ends = refl

year_end_in_zurich : zurich_date_of (codes "2025-12-31T23:30:00.5Z") ≡ some (codes "2026-01-01")
unfolding zurich_date_of zurich_offset_at parse_instant parse_time parse_offset print_date
    parse_date last_sunday weekday_of_days floor_mod days_in_month is_leap civil_from_days
    year_of_era days_from_civil floor_div day_of_era ◌+ℤ◌ ◌-ℤ◌ atoi_fixed make_date is_before padded
    format_uint write_digits
year_end_in_zurich = refl

not_a_day : parse_date (codes "2025-02-29") ≡ none
unfolding parse_date days_in_month is_leap atoi_fixed make_date
not_a_day = refl

civil_from_days-days_since_epoch_example : civil_from_days (days_since_epoch leap_day) ≡ leap_day
civil_from_days-days_since_epoch_example =
    civil_from_days-days_since_epoch leap_day leap_day-IsCalendar

days_from_civil-civil_from_days_example : days_since_epoch (civil_from_days (negsuc 0)) ≡ negsuc 0
days_from_civil-civil_from_days_example = days_from_civil-civil_from_days (negsuc 0)

parse_date-print_date_example : parse_date (print_date leap_day) ≡ some leap_day
parse_date-print_date_example =
    parse_date-print_date leap_day 2024 leap_day-IsCalendar refl (omega arith)

last_sunday-Between_example :
    (weekday_of_days (days_since_epoch (last_sunday (pos 2026) 3)) ≡ 0)
    × Between
        (days_from_civil (pos 2026) 3 (days_in_month (pos 2026) 3) -ℤ pos 6)
        (days_since_epoch (last_sunday (pos 2026) 3))
        (days_from_civil (pos 2026) 3 (days_in_month (pos 2026) 3) +ℤ pos 1)
last_sunday-Between_example = last_sunday-Between (pos 2026) 3

abbrev may_first : Date
may_first = record { year = pos 2026; month = 5; day = 1 }

first_of_may : parse_date (codes "2026-05-01") ≡ some may_first
unfolding parse_date days_in_month is_leap atoi_fixed make_date
first_of_may = refl

in_half_open_range-Between_example :
    ((in_half_open_range (codes "2026-05-01") (codes "2026-05-01") (codes "2026-05-01") ≡ some true)
      ↔ Between
          (days_since_epoch may_first)
          (days_since_epoch may_first)
          (days_since_epoch may_first))
    × ((in_half_open_range (codes "2026-05-01") (codes "2026-05-01") [] ≡ some true)
        ↔ (days_since_epoch may_first ≤ℤ days_since_epoch may_first))
in_half_open_range-Between_example =
    in_half_open_range-Between (codes "2026-05-01") (codes "2026-05-01") (codes "2026-05-01")
      may_first may_first may_first first_of_may first_of_may first_of_may

zurich_offset-at_example :
    zurich_offset (codes "2026-05-01")
    ≡ some (zurich_offset_at (days_since_epoch may_first *ℕ 86400 +ℤ pos 3600))
zurich_offset-at_example =
    zurich_offset-at (codes "2026-05-01") may_first 3600 first_of_may (omega arith) (omega arith)
