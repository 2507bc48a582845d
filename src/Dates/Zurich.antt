-- ===== src/Dates/Zurich.antt =====
-- internal/model/dates.go: instants and the Europe/Zurich offset.
use integrations_challenge.Prelude.{
  ℕ, ◌+◌, ◌*◌, not, ◌&&◌, ◌||◌, [], ◌∷◌, Bytes, codes, bytes_eq, Option, none, some, ltb, ◌==◌,
  if◌then◌else◌, length, take, drop,
}
use integrations_challenge.Prelude.Int.{ℤ, pos, ◌+ℤ◌, ◌-ℤ◌, ◌*ℕ◌, ltb_ℤ, leb_ℤ}
use integrations_challenge.Decimal.Text.{is_digit}
use integrations_challenge.Dates.{
  Date, days_since_epoch, civil_from_days, floor_div, is_before, last_sunday,
}
use integrations_challenge.Dates.Text.{parse_date, print_date, atoi_fixed, at_is, slice, ◌>>=◌}

abbrev pub winter : ℕ
winter = 60

abbrev pub summer : ℕ
summer = 120

-- ZurichOffsetMinutes
unfoldable pub zurich_offset : Bytes → Option ℕ
zurich_offset date = do
  d ← parse_date date
  let start = last_sunday d.year 3
  let end = last_sunday d.year 10
  if not (is_before d start) && is_before d end then some summer else some winter

-- zurichOffsetAtUnix
unfoldable pub zurich_offset_at : ℤ → ℕ
zurich_offset_at t =
    let y = (civil_from_days (floor_div t 86400)).year in
    let start = days_since_epoch (last_sunday y 3) *ℕ 86400 +ℤ pos 3600 in
    let end = days_since_epoch (last_sunday y 10) *ℕ 86400 +ℤ pos 3600 in
    if leb_ℤ start t && ltb_ℤ t end then summer else winter

-- The digits of a fraction of a second, dropped.
abbrev drop_digits : Bytes → Bytes
drop_digits [] = []
drop_digits (c ∷ s) = let rest = drop_digits s in if is_digit c then rest else c ∷ s

abbrev drop_fraction : Bytes → Option Bytes
drop_fraction [] = some []
drop_fraction (c ∷ s) =
    if c == b'.'
    then (if length (drop_digits s) == length s then none else some (drop_digits s))
    else some (c ∷ s)

-- The offset of an instant in seconds, from the text behind the seconds.
unfoldable pub parse_offset : Bytes → Option ℤ
parse_offset rest =
    let signed = do
      oh ← atoi_fixed (slice 1 3 rest)
      om ← atoi_fixed (slice 4 6 rest)
      let offset = oh * 3600 + om * 60
      let east = if at_is rest 0 b'-' then pos 0 -ℤ pos offset else pos offset
      if ltb 23 oh || ltb 59 om then none else some east
    in if bytes_eq rest (codes "Z") || bytes_eq rest (codes "z")
      then some (pos 0)
      else if (length rest == 6) && (at_is rest 0 b'+' || at_is rest 0 b'-') && at_is rest 3 b':'
      then signed
      else none

-- The time of day and the offset of ParseInstantUTC, on `s[11:]`.
unfoldable pub parse_time : Date → Bytes → Option ℤ
parse_time d rest =
    let time = do
      hh ← atoi_fixed (slice 0 2 rest)
      mm ← atoi_fixed (slice 3 5 rest)
      ss ← atoi_fixed (slice 6 8 rest)
      tail ← drop_fraction (drop 8 rest)
      offset ← parse_offset tail
      let local = days_since_epoch d *ℕ 86400 +ℤ pos (hh * 3600 + mm * 60 + ss)
      if ltb 23 hh || ltb 59 mm || ltb 59 ss then none else some (local -ℤ offset)
    in if ltb (length rest) 9 || not (at_is rest 2 b':') || not (at_is rest 5 b':')
      then none
      else time

-- ParseInstantUTC: every failure is ErrTimestampFormat.
unfoldable pub parse_instant : Bytes → Option ℤ
parse_instant s =
    let instant = do
      d ← parse_date (take 10 s)
      if not (at_is s 10 b'T') && not (at_is s 10 b't') then none else parse_time d (drop 11 s)
    in if ltb (length s) 20 then none else instant

-- ZurichDateOf
unfoldable pub zurich_date_of : Bytes → Option Bytes
zurich_date_of s = do
  t ← parse_instant s
  let local = t +ℤ pos (zurich_offset_at t * 60)
  some (print_date (civil_from_days (floor_div local 86400)))
