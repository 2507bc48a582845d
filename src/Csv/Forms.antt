-- ===== src/Csv/Forms.antt =====
-- internal/httpx/csv.go: the dates and the ends of a cell in a dialect. A cell is its bytes here,
-- and `none` is a cell that is passed through.
use integrations_challenge.Prelude.{
  ℕ, Bool, not, ◌&&◌, ◌||◌, [], ◌∷◌, ◌++◌, Bytes, codes, bytes_eq, Option, none, some,
  if◌then◌else◌, length, ◌==◌,
}
use integrations_challenge.Dates.Text.{at_is, slice}
use integrations_challenge.Decimal.Text.{is_empty}
use integrations_challenge.Text.{reversed}
use integrations_challenge.Match.{all_digits}
use integrations_challenge.Csv.{CsvResolved}

abbrev is_cut : ℕ → Bool
is_cut c = (c == b' ') || (c == 9) || (c == 13) || (c == 10)

abbrev trim_left : Bytes → Bytes
trim_left [] = []
trim_left (c ∷ s) = let rest = trim_left s in if is_cut c then rest else c ∷ s

-- csvResolved.trimCell
unfoldable pub trim_cell : CsvResolved → Bytes → Bytes
trim_cell d s =
    let left = if d.trim_l then trim_left s else s in
    if d.trim_r then reversed (trim_left (reversed left)) else left

-- allDigits
abbrev pub are_digits : Bytes → Bool
are_digits s = not (is_empty s) && all_digits s

-- A date from its texts, if they are digits.
abbrev pub digits_date : Bytes → Bytes → Bytes → Bytes → Option Bytes
digits_date y m day out =
    if not (are_digits y) || not (are_digits m) || not (are_digits day) then none else some out

abbrev pub has_separators : Bytes → ℕ → Bool
has_separators cell sep = (length cell == 10) && at_is cell 2 sep && at_is cell 5 sep

abbrev pub canonical : Bytes → Bytes → Bytes → Option Bytes
canonical y m day = digits_date y m day (y ++ b'-' ∷ m ++ b'-' ∷ day)

abbrev pub read_day_first : Bytes → ℕ → Option Bytes
read_day_first cell sep =
    if has_separators cell sep
    then canonical (slice 6 10 cell) (slice 3 5 cell) (slice 0 2 cell)
    else none

-- dateFromDialect
unfoldable pub date_from_dialect : Bytes → Bytes → Option Bytes
date_from_dialect cell format =
    if bytes_eq format (codes "RFC3339")
    then none
    else if bytes_eq format (codes "DD.MM.YYYY")
    then read_day_first cell b'.'
    else if bytes_eq format (codes "DD/MM/YYYY")
    then read_day_first cell b'/'
    else if bytes_eq format (codes "MM/DD/YYYY")
    then if has_separators cell b'/'
      then canonical (slice 6 10 cell) (slice 0 2 cell) (slice 3 5 cell)
      else none
    else if bytes_eq format (codes "YYYYMMDD")
    then if length cell == 8
      then canonical (slice 0 4 cell) (slice 4 6 cell) (slice 6 8 cell)
      else none
    else none

abbrev pub in_format : Bytes → Bytes → Bytes → Bytes → Option Bytes
in_format format y m day =
    if bytes_eq format (codes "DD.MM.YYYY")
    then some (day ++ b'.' ∷ m ++ b'.' ∷ y)
    else if bytes_eq format (codes "DD/MM/YYYY")
    then some (day ++ b'/' ∷ m ++ b'/' ∷ y)
    else if bytes_eq format (codes "MM/DD/YYYY")
    then some (m ++ b'/' ∷ day ++ b'/' ∷ y)
    else if bytes_eq format (codes "YYYYMMDD")
    then some (y ++ m ++ day)
    else none

abbrev pub date_parts_to : Bytes → Bytes → Bytes → Bytes → Option Bytes
date_parts_to format y m day =
    if not (are_digits y) || not (are_digits m) || not (are_digits day)
    then none
    else in_format format y m day

-- dateToDialect
unfoldable pub date_to_dialect : Bytes → Bytes → Option Bytes
date_to_dialect cell format =
    if bytes_eq format (codes "RFC3339")
    then none
    else if not (length cell == 10) || not (at_is cell 4 b'-') || not (at_is cell 7 b'-')
    then none
    else date_parts_to format (slice 0 4 cell) (slice 5 7 cell) (slice 8 10 cell)
