-- ===== src/Csv.antt =====
-- internal/httpx/csv.go: the dialects, and reading and writing in one. A text is its
-- bytes, of which parseCSV and csvNeedsQuote read the runes (Text/Utf8), and an error is its reason
-- with the field or the line that it names.
pub mod Forms
pub mod Dates
pub mod Read
pub mod Runes
pub mod Ends
pub mod Cells
pub mod Rows
pub mod RoundTrip
mod Tests
use integrations_challenge.Prelude.{
  ℕ, zero, suc, ◌+◌, Bool, true, false, not, ◌&&◌, ◌||◌, List, [], ◌∷◌, ◌++◌, Bytes, codes,
  bytes_eq, Option, none, some, Result, ok, err, ◌>>=◌, ◌>>◌, fail_if, if◌then◌else◌, ◌==◌, length,
}
use integrations_challenge.Decimal.Text.{is_empty}
use integrations_challenge.Text.Utf8.{rune_error, runes, encode_rune, encode}

pub record CsvDialect : Type 0 where
  pub delimiter : Bytes
  pub quote : Bytes
  pub escape : Bytes
  pub header : Option Bool
  pub line_ending : Bytes
  pub decimal_separator : Bytes
  pub thousands_separator : Bytes
  pub null_token : Bytes
  pub trim : Bytes
  pub date_format : Bytes
  pub columns : List Bytes

-- csvResolved
pub record CsvResolved : Type 0 where
  pub delim : ℕ
  pub quote : ℕ
  pub crlf : Bool
  pub dec : Bytes
  pub thou : Bytes
  pub null : Bytes
  pub has_null : Bool
  pub trim_l : Bool
  pub trim_r : Bool
  pub date_fmt : Bytes
  pub columns : List Bytes

pub data CsvError : Type 0 where
  dialect_unsupported : Bytes → CsvError
  header_required : CsvError
  unterminated_quote quote_trailing_data bare_quote : ℕ → CsvError

abbrev pub only_rune : List ℕ → ℕ → Bytes → Result CsvError ℕ
only_rune [] default name = ok default
only_rune (r ∷ []) default name = if r == rune_error then err (dialect_unsupported name) else ok r
only_rune (r ∷ s ∷ rest) default name = err (dialect_unsupported name)

-- oneRune, on the runes of the text.
unfoldable pub one_rune : Bytes → ℕ → Bytes → Result CsvError ℕ
one_rune v default name = only_rune (runes v) default name

abbrev pub without_header : Option Bool → Bool
without_header none = false
without_header (some header) = not header

abbrev pub resolve_line_ending : Bytes → Result CsvError Bool
resolve_line_ending s =
    if is_empty s || bytes_eq s (codes "LF")
    then ok false
    else if bytes_eq s (codes "CRLF")
    then ok true
    else err (dialect_unsupported (codes "line_ending"))

abbrev pub resolve_separator : Bytes → Result CsvError Bytes
resolve_separator s =
    if is_empty s || bytes_eq s (codes ".")
    then ok (codes ".")
    else if bytes_eq s (codes ",")
    then ok (codes ",")
    else err (dialect_unsupported (codes "decimal_separator"))

-- Which ends are trimmed.
abbrev pub resolve_trim : Bytes → Result CsvError (Bool × Bool)
resolve_trim s =
    if is_empty s || bytes_eq s (codes "none")
    then ok (false, false)
    else if bytes_eq s (codes "both")
    then ok (true, true)
    else if bytes_eq s (codes "left") || bytes_eq s (codes "start")
    then ok (true, false)
    else if bytes_eq s (codes "right") || bytes_eq s (codes "end")
    then ok (false, true)
    else err (dialect_unsupported (codes "trim"))

abbrev pub resolve_date_format : Bytes → Result CsvError Bytes
resolve_date_format s =
    if is_empty s || bytes_eq s (codes "RFC3339") || bytes_eq s (codes "YYYY-MM-DD")
    then ok (codes "RFC3339")
    else if bytes_eq s (codes "DD.MM.YYYY")
        || bytes_eq s (codes "DD/MM/YYYY")
        || bytes_eq s (codes "MM/DD/YYYY")
        || bytes_eq s (codes "YYYYMMDD")
    then ok s
    else err (dialect_unsupported (codes "date_format"))

-- CSVDialect.resolve
unfoldable pub resolve : CsvDialect → Result CsvError CsvResolved
resolve d = do
  delim ← one_rune d.delimiter b',' (codes "delimiter")
  quote ← one_rune d.quote 0x22 (codes "quote")
  fail_if (delim == quote) (dialect_unsupported (codes "quote"))
  fail_if (not (is_empty d.escape) && not (bytes_eq d.escape (codes "double")))
      (dialect_unsupported (codes "escape"))
  fail_if (without_header d.header) header_required
  crlf ← resolve_line_ending d.line_ending
  dec ← resolve_separator d.decimal_separator
  fail_if (bytes_eq d.thousands_separator dec && not (is_empty d.thousands_separator))
      (dialect_unsupported (codes "thousands_separator"))
  trims ← resolve_trim d.trim
  date_fmt ← resolve_date_format d.date_format
  let resolved : CsvResolved = record {
    delim = delim;
    quote = quote;
    crlf = crlf;
    dec = dec;
    thou = d.thousands_separator;
    null = d.null_token;
    has_null = not (is_empty d.null_token);
    trim_l = trims.0;
    trim_r = trims.1;
    date_fmt = date_fmt;
    columns = d.columns;
  }
  ok resolved

abbrev pub is_delim_or_break : CsvResolved → ℕ → Bool
is_delim_or_break d r = (r == d.delim) || (r == 13) || (r == 10)

-- csvNeedsQuote, on the runes of a cell.
unfoldable pub needs_quote : CsvResolved → List ℕ → Bool
needs_quote d [] = false
needs_quote d (r ∷ s) =
    (r == d.delim) || (r == d.quote) || (r == 13) || (r == 10) || needs_quote d s

-- The runes of a cell between quotes.
abbrev pub doubled : ℕ → List ℕ → List ℕ
doubled quote [] = []
doubled quote (r ∷ s) =
    let rest = doubled quote s in if r == quote then quote ∷ r ∷ rest else r ∷ rest

-- A cell is written rune by rune between quotes, and byte by byte without.
abbrev pub write_cell : CsvResolved → Bytes → Bytes
write_cell d cell =
    if needs_quote d (runes cell)
    then encode (d.quote ∷ (doubled d.quote (runes cell) ++ d.quote ∷ []))
    else cell

abbrev pub write_cells : CsvResolved → List Bytes → Bytes
write_cells d [] = []
write_cells d (cell ∷ []) = write_cell d cell
write_cells d (cell ∷ next ∷ row) =
    write_cell d cell ++ (encode_rune d.delim ++ write_cells d (next ∷ row))

abbrev pub eol : CsvResolved → Bytes
eol d = if d.crlf then 13 ∷ 10 ∷ [] else 10 ∷ []

-- writeCSVRow
unfoldable pub write_row : CsvResolved → List Bytes → Bytes
write_row d row = write_cells d row ++ eol d

abbrev pub write_rows : CsvResolved → List (List Bytes) → Bytes
write_rows d [] = []
write_rows d (row ∷ rows) = write_row d row ++ write_rows d rows

-- writeCSV
unfoldable pub write_csv : CsvResolved → List Bytes → List (List Bytes) → Bytes
write_csv d header rows = write_row d header ++ write_rows d rows
