-- ===== src/Csv/Tests.antt =====
-- CSV on concrete texts, and the theorems about it applied there.
use integrations_challenge.Prelude.{
  ◌≡◌, refl, true, false, List, [], ◌∷◌, ◌++◌, Bytes, codes, none, some, Result, ok, err,
}
use integrations_challenge.Csv.{
  CsvDialect, CsvResolved, CsvError, dialect_unsupported, unterminated_quote, quote_trailing_data,
  bare_quote, one_rune, resolve, write_csv, write_row, needs_quote,
}
use integrations_challenge.Text.Utf8.{runes_behind, decode_rune, encode_rune}
use integrations_challenge.Csv.Runes.{AreUtf8}
use integrations_challenge.Csv.Forms.{date_to_dialect, date_from_dialect}
use integrations_challenge.Csv.Read.{quoted, unquoted, field, after_field, parse_fields, parse_csv}
use integrations_challenge.Csv.Ends.{parse_csv-ends}
use integrations_challenge.Csv.RoundTrip.{parse_csv-write_csv}

-- The zero dialect, with lines that end in CR LF.
abbrev crlf : CsvDialect
crlf = record {
  delimiter = [];
  quote = [];
  escape = [];
  header = none;
  line_ending = codes "CRLF";
  decimal_separator = [];
  thousands_separator = [];
  null_token = [];
  trim = [];
  date_format = [];
  columns = [];
}

abbrev resolved : CsvResolved
resolved = record {
  delim = b',';
  quote = 0x22;
  crlf = true;
  dec = codes ".";
  thou = [];
  null = [];
  has_null = false;
  trim_l = false;
  trim_r = false;
  date_fmt = codes "RFC3339";
  columns = [];
}

resolving :
    (resolve crlf ≡ ok resolved)
    × (resolve (record crlf { delimiter = codes ";"; quote = codes ";" })
        ≡ err (dialect_unsupported (codes "quote")))
    × (resolve (record crlf { delimiter = codes "ab" })
        ≡ err (dialect_unsupported (codes "delimiter")))
unfolding resolve one_rune runes_behind decode_rune
resolving = (refl, refl, refl)

reading :
    (parse_csv resolved (codes "a,b\n1,\n")
      ≡ some (ok ((codes "a" ∷ codes "b" ∷ []) ∷ (codes "1" ∷ [] ∷ []) ∷ [])))
    × (parse_csv resolved (codes "a,") ≡ some (ok ((codes "a" ∷ [] ∷ []) ∷ [])))
    × (parse_csv resolved (codes "a\nb" ++ 0x22 ∷ []) ≡ some (err (bare_quote 2)))
    × (parse_csv resolved (0x22 ∷ codes "a") ≡ some (err (unterminated_quote 1)))
    × (parse_csv resolved (0x22 ∷ 0x22 ∷ codes "a") ≡ some (err (quote_trailing_data 1)))
unfolding parse_csv parse_fields after_field field quoted unquoted runes_behind decode_rune
    encode_rune
reading = (refl, refl, refl, refl, refl)

-- A byte that is no UTF-8 is written as it is, and read as U+FFFD.
lossy :
    (write_csv resolved ((255 ∷ []) ∷ []) [] ≡ 255 ∷ 13 ∷ 10 ∷ [])
    × (parse_csv resolved (255 ∷ 13 ∷ 10 ∷ []) ≡ some (ok (((239 ∷ 191 ∷ 189 ∷ []) ∷ []) ∷ [])))
unfolding parse_csv parse_fields after_field field quoted unquoted runes_behind decode_rune
    encode_rune write_csv write_row needs_quote
lossy = (refl, refl)

-- A comma, an empty cell, a quote and a line break, and the letter u with two dots.
abbrev rows : List (List Bytes)
rows = (codes "x,y" ∷ [] ∷ []) ∷ ((0x22 ∷ 10 ∷ 195 ∷ 188 ∷ []) ∷ []) ∷ []

cells : AreUtf8 ((codes "a" ∷ codes "b" ∷ []) ∷ rows)
unfolding runes_behind decode_rune encode_rune
cells = (
  (record { written = refl }, (record { written = refl }, tt)),
  (
    (record { written = refl }, (record { written = refl }, tt)),
    ((record { written = refl }, tt), tt),
  ),
)

parse_csv-write_csv_example :
    parse_csv resolved (write_csv resolved (codes "a" ∷ codes "b" ∷ []) rows)
    ≡ some (ok ((codes "a" ∷ codes "b" ∷ []) ∷ rows))
unfolding resolve one_rune runes_behind
parse_csv-write_csv_example =
    parse_csv-write_csv crlf resolved (codes "a" ∷ codes "b" ∷ []) rows refl refl refl tt
      (tt, (tt, tt)) cells

parse_csv-ends_example :
    (result : Result CsvError (List (List Bytes))) × (parse_csv resolved (codes "a,b")
      ≡ some result)
parse_csv-ends_example = parse_csv-ends resolved (codes "a,b")

dates :
    (date_to_dialect (codes "2026-03-14") (codes "DD.MM.YYYY") ≡ some (codes "14.03.2026"))
    × (date_from_dialect (codes "14.03.2026") (codes "DD.MM.YYYY") ≡ some (codes "2026-03-14"))
    × (date_from_dialect (codes "20260314") (codes "YYYYMMDD") ≡ some (codes "2026-03-14"))
    × (date_to_dialect (codes "2026-3-14") (codes "DD.MM.YYYY") ≡ none)
unfolding date_to_dialect date_from_dialect
dates = (refl, refl, refl, refl)
