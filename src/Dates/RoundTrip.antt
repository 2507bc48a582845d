-- ===== src/Dates/RoundTrip.antt =====
-- internal/model/dates.go: ParseDate reads what String writes.
use mathlib.Core.Path.{subst}
use integrations_challenge.Prelude.{
  ℕ, zero, suc, ◌≤◌, ◌<◌, ◌≡◌, refl, sym, ap, ◌∙◌, Bool, true, false, ◌&&◌, [], ◌∷◌, ◌++◌, Bytes,
  Option, none, some, ◌==◌, ==→eq, length, if◌then◌else◌, Bool-cases, inl, inr, arith,
}
use integrations_challenge.Prelude.Int.{ℤ, pos}
use integrations_challenge.Decimal.Text.{format_uint, write_digits}
use integrations_challenge.Dates.{Date, days_in_month}
use integrations_challenge.Dates.Calendar.{IsCalendar}
use integrations_challenge.Dates.Text.{
  digits_from, atoi_fixed, make_date, parse_date, padded, print_date,
}

-- A table of a test over the numbers below a bound, and what it says of one of them.
table : (ℕ → Bool) → ℕ → Bool
table test zero = true
table test (suc bound) = let rest = table test bound in if test bound then rest else false

table-at : (test : ℕ → Bool) (bound v : ℕ) → v < bound → table test bound ≡ true → test v ≡ true
unfolding table
table-at test zero v small holds = absurd (omega arith)
table-at test (suc bound) v small holds = elim (Bool-cases (test bound)) [
  | inl top ↦ let rest = table-at test bound v in ground arith
  | inr fails ↦ absurd (ground arith)
]

abbrev is_value : Option ℕ → ℕ → Bool
is_value none n = false
is_value (some m) n = m == n

-- A padded number has its width and is read back.
abbrev reads_back : ℕ → ℕ → Bool
reads_back width n =
    length (padded (pos n) width) == width && is_value (atoi_fixed (padded (pos n) width)) n

four_table : table (reads_back 4) 10000 ≡ true
unfolding table padded atoi_fixed digits_from format_uint write_digits
four_table = refl

two_table : table (reads_back 2) 100 ≡ true
unfolding table padded atoi_fixed digits_from format_uint write_digits
two_table = refl

value_of : (o : Option ℕ) (n : ℕ) → is_value o n ≡ true → o ≡ some n
value_of none n h = cc
value_of (some m) n h = ap some (==→eq m n h)

four :
    (n : ℕ) → n < 10000 → (length (padded (pos n) 4) ≡ 4) × (atoi_fixed (padded (pos n) 4) ≡ some n)
four n h =
    let both = table-at (reads_back 4) 10000 n h four_table in
    (ground arith, value_of (atoi_fixed (padded (pos n) 4)) n (ground arith))

two : (n : ℕ) → n < 100 → (length (padded (pos n) 2) ≡ 2) × (atoi_fixed (padded (pos n) 2) ≡ some n)
two n h =
    let both = table-at (reads_back 2) 100 n h two_table in
    (ground arith, value_of (atoi_fixed (padded (pos n) 2)) n (ground arith))

-- ParseDate on a text of the right shape.
parse_parts :
    (ys ms ds : Bytes) {y m d : ℕ}
    → length ys ≡ 4
    → length ms ≡ 2
    → length ds ≡ 2
    → atoi_fixed ys ≡ some y
    → atoi_fixed ms ≡ some m
    → atoi_fixed ds ≡ some d
    → parse_date (ys ++ b'-' ∷ (ms ++ b'-' ∷ ds)) ≡ make_date y m d
unfolding parse_date
parse_parts (a ∷ b ∷ c ∷ e ∷ []) (f ∷ g ∷ []) (h ∷ i ∷ []) ly lm ld ey em ed = rw (ey, em, ed) refl
parse_parts _ _ _ ly lm ld ey em ed = absurd (omega arith)

month_short : (y : ℤ) (m : ℕ) → days_in_month y m ≤ 31
unfolding days_in_month
month_short y m = ground arith

make_date_lem :
    (y m d : ℕ)
    → IsCalendar (record { year = pos y; month = m; day = d })
    → make_date y m d ≡ some (record { year = pos y; month = m; day = d })
unfolding make_date
make_date_lem y m d v = ground (arith, v.month_in, v.day_in)

reads_date :
    (y m d : ℕ)
    → IsCalendar (record { year = pos y; month = m; day = d })
    → y < 10000
    → parse_date (print_date (record { year = pos y; month = m; day = d }))
      ≡ some (record { year = pos y; month = m; day = d })
unfolding print_date
reads_date y m d v h =
    let (ly, ey) = four y h in
    let (lm, em) = two m (omega (arith, v.month_in)) in
    let (ld, ed) = two d (omega (arith, v.day_in, month_short (pos y) m)) in
    parse_parts (padded (pos y) 4) (padded (pos m) 2) (padded (pos d) 2) ly lm ld ey em ed
    ∙ make_date_lem y m d v

-- A day of the calendar in the years 0 to 9999 is read back from its String.
pub parse_date-print_date :
    (d : Date) (y : ℕ)
    → IsCalendar d
    → d.year ≡ pos y
    → y < 10000
    → parse_date (print_date d) ≡ some d
parse_date-print_date d y v e h =
    let same : d ≡ record { year = pos y; month = d.month; day = d.day } =
      ap (λ (t : ℤ). record d { year = t }) e in
    subst (λ (q : Date). parse_date (print_date q) ≡ some q) (sym same)
      (reads_date y d.month d.day (subst IsCalendar same v) h)
