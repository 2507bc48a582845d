-- ===== src/Csv/Read.antt =====
-- internal/httpx/csv.go: parseCSV. It decodes the text from left to right, so what it reads are
-- the runes of the text, and it writes every rune of a field to the cell.
use integrations_challenge.Prelude.{
  ℕ, zero, suc, ◌+◌, true, false, List, [], ◌∷◌, ◌++◌, Bytes, Option, none, some, Result, ok, err,
  ◌>>=◌, if◌then◌else◌, ◌==◌, length,
}
use integrations_challenge.Decimal.Text.{is_empty}
use integrations_challenge.Text.Utf8.{runes, encode}
use integrations_challenge.Csv.{
  CsvResolved, CsvError, unterminated_quote, quote_trailing_data, bare_quote, is_delim_or_break,
}

-- A field that was read, with the text behind it and the line there.
abbrev pub Field : Type 0
Field = Bytes × Bytes × ℕ

abbrev pub push : ℕ → Result CsvError Field → Result CsvError Field
push r (ok (field, rest, line)) = ok (r ∷ field, rest, line)
push r (err e) = err e

abbrev pub line_after : ℕ → ℕ → ℕ
line_after r line = if r == 10 then line + 1 else line

-- What stands behind an opening quote, up to the closing one.
unfoldable pub quoted : ℕ → ℕ → Bytes → Result CsvError Field
quoted quote line [] = err (unterminated_quote line)
quoted quote line (r ∷ []) =
    if r == quote then ok ([], [], line) else err (unterminated_quote (line_after r line))
quoted quote line (r ∷ s ∷ rest) = elim (r == quote) [
  | false ↦ push r (quoted quote (line_after r line) (s ∷ rest))
  | true ↦ elim (s == quote) [
    | true ↦ push quote (quoted quote line rest)
    | false ↦ ok ([], s ∷ rest, line)
  ]
]

-- After a closing quote only a delimiter, a line break or the end is allowed.
abbrev pub after_close : CsvResolved → Field → Result CsvError Field
after_close d (field, [], line) = ok (field, [], line)
after_close d (field, r ∷ rest, line) =
    if is_delim_or_break d r then ok (field, r ∷ rest, line) else err (quote_trailing_data line)

unfoldable pub unquoted : CsvResolved → ℕ → Bytes → Result CsvError Field
unquoted d line [] = ok ([], [], line)
unquoted d line (r ∷ rest) =
    let more = unquoted d line rest in
    if is_delim_or_break d r
    then ok ([], r ∷ rest, line)
    else if r == d.quote
    then err (bare_quote line)
    else push r more

-- One field.
unfoldable pub field : CsvResolved → ℕ → Bytes → Result CsvError Field
field d line [] = ok ([], [], line)
field d line (r ∷ rest) =
    if r == d.quote then quoted d.quote line rest >>= after_close d else unquoted d line (r ∷ rest)

abbrev pub skip_line_feed : Bytes → Bytes
skip_line_feed [] = []
skip_line_feed (r ∷ rest) = if r == 10 then rest else r ∷ rest

-- What is read so far: the line, the record and the records before it, with the text to come.
abbrev pub Progress : Type 0
Progress = ℕ × List Bytes × List (List Bytes) × Bytes

-- What stands behind a field.
unfoldable pub after_field : CsvResolved → ℕ → List Bytes → List (List Bytes) → Bytes → Progress
after_field d line rec recs [] = (line, rec, recs, [])
after_field d line rec recs (r ∷ rest) =
    if r == d.delim
    then if is_empty rest
      then (line, [], recs ++ (rec ++ [] ∷ []) ∷ [], [])
      else (line, rec, recs, rest)
    else if r == 13
    then (line + 1, [], recs ++ rec ∷ [], skip_line_feed rest)
    else if r == 10
    then (line + 1, [], recs ++ rec ∷ [], rest)
    else (line, rec, recs, r ∷ rest)

abbrev pub flush : List Bytes → List (List Bytes) → List (List Bytes)
flush [] recs = recs
flush (field ∷ rec) recs = recs ++ (field ∷ rec) ∷ []

-- The loop of parseCSV, on fuel; `none` is that the fuel runs out.
unfoldable pub parse_fields :
    ℕ
    → CsvResolved
    → ℕ
    → List Bytes
    → List (List Bytes)
    → Bytes
    → Option (Result CsvError (List (List Bytes)))
parse_fields fuel d line rec recs [] = some (ok (flush rec recs))
parse_fields zero d line rec recs (r ∷ rest) = none
parse_fields (suc fuel) d line rec recs (r ∷ rest) = elim (field d line (r ∷ rest)) [
  | err e ↦ some (err e)
  | ok (cell, behind, at) ↦
      let (line', rec', recs', rest') = after_field d at (rec ++ cell ∷ []) recs behind in
      parse_fields fuel d line' rec' recs' rest'
]

-- The cells, each written rune by rune.
abbrev pub encode_cells : List (List ℕ) → List Bytes
encode_cells [] = []
encode_cells (cell ∷ row) = encode cell ∷ encode_cells row

abbrev pub encode_rows : List (List (List ℕ)) → List (List Bytes)
encode_rows [] = []
encode_rows (row ∷ rows) = encode_cells row ∷ encode_rows rows

abbrev pub encode_result :
    Result CsvError (List (List (List ℕ))) → Result CsvError (List (List Bytes))
encode_result (ok rows) = ok (encode_rows rows)
encode_result (err e) = err e

abbrev pub encode_read :
    Option (Result CsvError (List (List (List ℕ)))) → Option (Result CsvError (List (List Bytes)))
encode_read none = none
encode_read (some result) = some (encode_result result)

-- parseCSV
unfoldable pub parse_csv : CsvResolved → Bytes → Option (Result CsvError (List (List Bytes)))
parse_csv d s = encode_read (parse_fields (length (runes s)) d 1 [] [] (runes s))
