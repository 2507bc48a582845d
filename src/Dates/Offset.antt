-- ===== src/Dates/Offset.antt =====
-- internal/model/dates.go: the offset of a whole date and the offset of an instant.
use mathlib.Core.Path.{subst}
use integrations_challenge.Prelude.{
  ℕ, ◌≤◌, ◌<◌, ◌≡◌, not, ◌||◌, Bytes, Option, none, some, ltb, ◌==◌, if_elim, length, arith,
}
use integrations_challenge.Prelude.Int.{
  ℤ, pos, negsuc, ◌+ℤ◌, ◌-ℤ◌, ◌*ℕ◌, ltb_ℤ, leb_ℤ, +ℤ_parts, *ℕ_parts,
}
use integrations_challenge.Dates.{
  Date, days_since_epoch, days_in_month, is_before, compare_date, floor_div, last_sunday,
}
use integrations_challenge.Dates.Calendar.{IsCalendar, civil_from_days-days_since_epoch}
use integrations_challenge.Dates.Text.{parse_date, make_date, atoi_fixed, slice, at_is, ◌>>=◌}
use integrations_challenge.Dates.Zurich.{zurich_offset, zurich_offset_at}

-- What a parser gives is a day of the calendar.
abbrev IsSound : Option Date → Type 0
IsSound none = Unit
IsSound (some d) = IsCalendar d

bind-IsSound :
    {A : Type 0} (o : Option A) (f : A → Option Date)
    → ((a : A) → IsSound (f a))
    → IsSound (o >>= f)
bind-IsSound none f sound = tt
bind-IsSound (some a) f sound = sound a

make_date-IsSound : (y m d : ℕ) → IsSound (make_date y m d)
unfolding make_date
make_date-IsSound y m d =
    if_elim IsSound (ltb m 1 || ltb 12 m || ltb d 1 || ltb (days_in_month (pos y) m) d) (λ bad. tt)
      (λ good. record {
        month_in = (ground arith, ground arith);
        day_in = (ground arith, ground arith);
      })

parse_date-IsSound : (s : Bytes) → IsSound (parse_date s)
unfolding parse_date
parse_date-IsSound s =
    if_elim IsSound (not (length s == 10) || not (at_is s 4 b'-') || not (at_is s 7 b'-'))
      (λ bad. tt)
      (λ good. bind-IsSound (atoi_fixed (slice 0 4 s)) _ (λ y.
        bind-IsSound (atoi_fixed (slice 5 7 s)) _
          (λ m. bind-IsSound (atoi_fixed (slice 8 10 s)) _ (λ d. make_date-IsSound y m d))))

parse_date-IsCalendar : (s : Bytes) (d : Date) → parse_date s ≡ some d → IsCalendar d
parse_date-IsCalendar s d e = subst IsSound e (parse_date-IsSound s)

floor_seconds : (day : ℤ) (n : ℕ) → n < 86400 → floor_div (day *ℕ 86400 +ℤ pos n) 86400 ≡ day
unfolding floor_div ◌+ℤ◌ ◌-ℤ◌
floor_seconds (pos q) n h = ground arith
floor_seconds (negsuc q) n h = ground arith

module _ (a b : ℤ) (n : ℕ) (late : 3600 ≤ n) (short : n < 86400) where
  start_reached : leb_ℤ (a *ℕ 86400 +ℤ pos 3600) (b *ℕ 86400 +ℤ pos n) ≡ not (ltb_ℤ b a)
  start_reached = ground (
    arith,
    +ℤ_parts (a *ℕ 86400) (pos 3600),
    +ℤ_parts (b *ℕ 86400) (pos n),
    *ℕ_parts a 86400,
    *ℕ_parts b 86400,
  )

  end_ahead : ltb_ℤ (b *ℕ 86400 +ℤ pos n) (a *ℕ 86400 +ℤ pos 3600) ≡ ltb_ℤ b a
  end_ahead = ground (
    arith,
    +ℤ_parts (a *ℕ 86400) (pos 3600),
    +ℤ_parts (b *ℕ 86400) (pos n),
    *ℕ_parts a 86400,
    *ℕ_parts b 86400,
  )

is_before_lem : (d o : Date) → is_before d o ≡ ltb_ℤ (days_since_epoch d) (days_since_epoch o)
unfolding is_before compare_date
is_before_lem d o = ground arith

-- The offset that ZurichOffsetMinutes gives for a date is the one in force, by ZurichOffsetMinutesAt,
-- at every instant from 01:00 UTC of that date to its end in UTC.
pub zurich_offset-at :
    (date : Bytes) (d : Date) (n : ℕ)
    → parse_date date ≡ some d
    → 3600 ≤ n
    → n < 86400
    → zurich_offset date ≡ some (zurich_offset_at (days_since_epoch d *ℕ 86400 +ℤ pos n))
unfolding zurich_offset zurich_offset_at
zurich_offset-at date d n e late short =
    let back = civil_from_days-days_since_epoch d (parse_date-IsCalendar date d e) in
    let start = last_sunday d.year 3 in
    let end = last_sunday d.year 10 in
    rw
      (
        e,
        floor_seconds (days_since_epoch d) n short,
        back,
        is_before_lem d start,
        is_before_lem d end,
        start_reached (days_since_epoch start) (days_since_epoch d) n late short,
        end_ahead (days_since_epoch end) (days_since_epoch d) n late short,
      )
      (ground arith)
