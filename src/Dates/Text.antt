-- ===== src/Dates/Text.antt =====
-- internal/model/dates.go: ParseDate, String, and half-open ranges of dates.
use integrations_challenge.Prelude.{
  ℕ, zero, suc, ◌+◌, ◌-◌, ◌*◌, Bool, true, false, not, ◌||◌, [], ◌∷◌, ◌++◌, Bytes, Option, none,
  some, ltb, ◌==◌, if◌then◌else◌, length, take, drop, replicate,
}
use integrations_challenge.Prelude.Int.{ℤ, pos, negsuc}
use integrations_challenge.Decimal.Text.{is_digit, is_empty, format_uint}
use integrations_challenge.Dates.{Date, days_in_month, is_before, compare_date}

-- The loop of atoiFixed.
unfoldable pub digits_from : ℕ → Bytes → Option ℕ
digits_from n [] = some n
digits_from n (c ∷ s) =
    let rest = digits_from (n * 10 + (c - b'0')) s in if is_digit c then rest else none

-- atoiFixed, on a text of a few digits, where an int does not overflow.
unfoldable pub atoi_fixed : Bytes → Option ℕ
unfolding digits_from
atoi_fixed s = if is_empty s then none else digits_from 0 s

-- `s[i] == c`, on an index of the text.
abbrev pub at_is : Bytes → ℕ → ℕ → Bool
at_is [] i c = false
at_is (x ∷ s) zero c = x == c
at_is (x ∷ s) (suc i) c = at_is s i c

-- s[a:b]
abbrev pub slice : ℕ → ℕ → Bytes → Bytes
slice a b s = take (b - a) (drop a s)

-- ParseDate from its three numbers.
unfoldable pub make_date : ℕ → ℕ → ℕ → Option Date
make_date y m d =
    if ltb m 1 || ltb 12 m || ltb d 1 || ltb (days_in_month (pos y) m) d
    then none
    else some (record { year = pos y; month = m; day = d })

infixl 5 ◌>>=◌
abbrev pub ◌>>=◌ : {A B : Type 0} → Option A → (A → Option B) → Option B
none >>= f = none
some a >>= f = f a

-- ParseDate
unfoldable pub parse_date : Bytes → Option Date
parse_date s =
    let date = do
      y ← atoi_fixed (slice 0 4 s)
      m ← atoi_fixed (slice 5 7 s)
      d ← atoi_fixed (slice 8 10 s)
      make_date y m d
    in if not (length s == 10) || not (at_is s 4 b'-') || not (at_is s 7 b'-') then none else date

-- writePadded
unfoldable pub padded : ℤ → ℕ → Bytes
padded (pos v) width = let s = format_uint v in replicate (width - length s) b'0' ++ s
padded (negsuc v) width = b'-' ∷ format_uint (suc v)

-- Date.String
unfoldable pub print_date : Date → Bytes
print_date d = padded d.year 4 ++ b'-' ∷ (padded (pos d.month) 2 ++ b'-' ∷ padded (pos d.day) 2)

-- CompareDates
unfoldable pub compare_dates : Bytes → Bytes → Option ℤ
compare_dates a b = do da ← parse_date a; db ← parse_date b; some (compare_date da db)

-- DateInHalfOpenRange
unfoldable pub in_half_open_range : Bytes → Bytes → Bytes → Option Bool
in_half_open_range date from to = do
  d ← parse_date date
  f ← parse_date from
  let upper = do t ← parse_date to; some (is_before d t)
  if is_before d f then some false else if is_empty to then some true else upper
