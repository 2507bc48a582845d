-- ===== src/Csv/RoundTrip.antt =====
-- internal/httpx/csv.go: what writeCSV wrote is read back.
use mathlib.Core.Path.{subst}
use integrations_challenge.Prelude.{
  ℕ, ◌+◌, ◌-◌, ◌≤◌, ◌≡◌, sym, ap, ◌∙◌, Bool, false, not, bytes_eq, ◌&&◌, ◌||◌, List, [], ◌∷◌, ◌++◌,
  append_assoc, append-nil, Bytes, some, Result, ok, err, ◌>>=◌, if_elim, Holds, guard-Holds,
  bind-Holds, true, refl, Holds-ok, codes, ◌==◌, length, length-append, arith,
}
use integrations_challenge.Text.Utf8.{rune_error, is_rune, runes}
use integrations_challenge.Text.Utf8.RoundTrip.{AreRunes, runes-AreRunes}
use integrations_challenge.Decimal.Text.{is_empty}
use integrations_challenge.Csv.{
  CsvDialect, CsvResolved, only_rune, one_rune, write_rows, without_header, resolve_line_ending,
  resolve_separator, resolve_trim, resolve_date_format, resolve, eol, write_csv,
}
use integrations_challenge.Csv.Runes.{
  AreUtf8, IsUtf8Row, row_runes, rows_runes, runes-write_rows, rune_cell, rune_cells, rune_row,
  rune_rows,
}
use integrations_challenge.Csv.Read.{
  encode_cells, encode_rows, encode_read, parse_fields, parse_csv,
}
use integrations_challenge.Csv.Cells.{IsReadable}
use integrations_challenge.Csv.Rows.{fuel_for, parse_fields-row}

-- Rows that have cells.
abbrev pub IsFilled : List Bytes → Type 0
IsFilled [] = ⊥
IsFilled (cell ∷ row) = Unit

abbrev pub AreFilled : List (List Bytes) → Type 0
AreFilled [] = Unit
AreFilled (row ∷ rows) = IsFilled row × AreFilled rows

abbrev fuel_for_rows : List (List Bytes) → ℕ → ℕ
fuel_for_rows [] fuel = fuel
fuel_for_rows (row ∷ rows) fuel = fuel_for row (fuel_for_rows rows fuel)

parse_fields-rows :
    (fuel : ℕ) (d : CsvResolved) (line : ℕ) (recs rows : List (List Bytes))
    → IsReadable d
    → AreFilled rows
    → parse_fields (fuel_for_rows rows fuel) d line [] recs (rune_rows d rows)
      ≡ some (ok (recs ++ rows))
unfolding parse_fields rune_row
parse_fields-rows fuel d line recs [] h filled =
    ap (λ (rs : List (List Bytes)). some (ok rs)) (sym (append-nil recs))
parse_fields-rows fuel d line recs ([] ∷ rows) h filled = absurd filled.0
parse_fields-rows fuel d line recs ((cell ∷ row) ∷ rows) h filled =
    let rest = rune_rows d rows in
    let (at, e) = parse_fields-row (fuel_for_rows rows fuel) d line [] recs cell row rest h in
    let ih = parse_fields-rows fuel d at (recs ++ (cell ∷ row) ∷ []) rows h filled.1 in
    ap (parse_fields (fuel_for_rows ((cell ∷ row) ∷ rows) fuel) d line [] recs)
      (append_assoc (rune_cells d (cell ∷ row)) (eol d) rest)
    ∙ e
    ∙ ih
    ∙ ap (λ (rs : List (List Bytes)). some (ok rs)) (append_assoc recs ((cell ∷ row) ∷ []) rows)

fuel_for-plus : (row : List Bytes) (fuel : ℕ) → fuel_for row fuel ≡ length row + fuel
fuel_for-plus [] fuel = omega arith
fuel_for-plus (cell ∷ row) fuel = let ih = fuel_for-plus row fuel in omega arith

fuel_for_rows-plus :
    (rows : List (List Bytes)) (fuel : ℕ) → fuel_for_rows rows fuel ≡ fuel_for_rows rows 0 + fuel
fuel_for_rows-plus [] fuel = omega arith
fuel_for_rows-plus (row ∷ rows) fuel =
    let ih = fuel_for_rows-plus rows fuel in
    let here = fuel_for-plus row (fuel_for_rows rows fuel) in
    let least = fuel_for-plus row (fuel_for_rows rows 0) in omega arith

-- A row takes at least a rune for each of its cells.
length-rune_cells :
    (d : CsvResolved) (cell : Bytes) (row : List Bytes)
    → length row ≤ length (rune_cells d (cell ∷ row))
length-rune_cells d cell [] = omega arith
length-rune_cells d cell (next ∷ row) =
    let ih = length-rune_cells d next row in
    let long = length-append (rune_cell d cell) (d.delim ∷ rune_cells d (next ∷ row)) in omega arith

length-eol : (d : CsvResolved) → 1 ≤ length (eol d)
length-eol d =
    if_elim (λ (ending : Bytes). 1 ≤ length ending) d.crlf (λ crlf. omega arith) (λ lf. omega arith)

length-rune_row : (d : CsvResolved) (row : List Bytes) → length row ≤ length (rune_row d row)
unfolding rune_row
length-rune_row d [] = omega arith
length-rune_row d (cell ∷ row) =
    let cells = length-rune_cells d cell row in
    let ending = length-eol d in
    let long = length-append (rune_cells d (cell ∷ row)) (eol d) in omega arith

length-rune_rows :
    (d : CsvResolved) (rows : List (List Bytes)) → fuel_for_rows rows 0 ≤ length (rune_rows d rows)
length-rune_rows d [] = omega arith
length-rune_rows d (row ∷ rows) =
    let ih = length-rune_rows d rows in
    let here = length-rune_row d row in
    let plus = fuel_for-plus row (fuel_for_rows rows 0) in
    let long = length-append (rune_row d row) (rune_rows d rows) in omega arith

parse_fields-runes :
    (d : CsvResolved) (rows : List (List (List ℕ)))
    → IsReadable d
    → AreFilled rows
    → parse_fields (length (rune_rows d rows)) d 1 [] [] (rune_rows d rows) ≡ some (ok rows)
parse_fields-runes d rows h filled =
    let text = rune_rows d rows in
    let few = length-rune_rows d rows in
    let spare = length text - fuel_for_rows rows 0 in
    let plus = fuel_for_rows-plus rows spare in
    let fuel : length text ≡ fuel_for_rows rows spare = omega arith in
    subst (λ (n : ℕ). parse_fields n d 1 [] [] text ≡ some (ok rows)) (sym fuel)
      (parse_fields-rows spare d 1 [] rows h filled)

-- A line break.
abbrev pub is_break : ℕ → Bool
is_break r = (r == 13) || (r == 10)

any-Holds :
    {E A B : Type 0} (P : B → Type 0) (r : Result E A) (f : A → Result E B)
    → ((a : A) → Holds P (f a))
    → Holds P (r >>= f)
any-Holds P (ok a) f p = p a
any-Holds P (err e) f p = tt

-- A dialect whose delimiter and quote are runes that differ.
abbrev pub IsSound : CsvResolved → Type 0
IsSound d = ((d.delim == d.quote) ≡ false) × (is_rune d.delim ≡ true) × (is_rune d.quote ≡ true)

only_rune-is_rune :
    (rs : List ℕ) (default : ℕ) (name : Bytes)
    → is_rune default ≡ true
    → AreRunes rs
    → Holds (λ (r : ℕ). is_rune r ≡ true) (only_rune rs default name)
only_rune-is_rune [] default name h k = h
only_rune-is_rune (r ∷ []) default name h (valid, k) =
    if_elim (Holds (λ (r : ℕ). is_rune r ≡ true)) (r == rune_error) (λ bad. tt) (λ good. valid)
only_rune-is_rune (r ∷ s ∷ rest) default name h k = tt

one_rune-is_rune :
    (v : Bytes) (default : ℕ) (name : Bytes)
    → is_rune default ≡ true
    → Holds (λ (r : ℕ). is_rune r ≡ true) (one_rune v default name)
unfolding one_rune
one_rune-is_rune v default name h = only_rune-is_rune (runes v) default name h (runes-AreRunes v)

resolve-IsSound : (dialect : CsvDialect) → Holds IsSound (resolve dialect)
unfolding resolve
resolve-IsSound dialect =
    bind-Holds (λ (r : ℕ). is_rune r ≡ true) IsSound
      (one_rune dialect.delimiter b',' (codes "delimiter")) _
      (one_rune-is_rune dialect.delimiter b',' (codes "delimiter") refl)
      (λ delim delim_rune.
        bind-Holds (λ (r : ℕ). is_rune r ≡ true) IsSound
          (one_rune dialect.quote 0x22 (codes "quote")) _
          (one_rune-is_rune dialect.quote 0x22 (codes "quote") refl)
          (λ quote quote_rune. guard-Holds IsSound (delim == quote) _ _ (λ apart.
            guard-Holds IsSound
              (not (is_empty dialect.escape) && not (bytes_eq dialect.escape (codes "double"))) _ _
              (λ escape. guard-Holds IsSound (without_header dialect.header) _ _ (λ header.
                any-Holds IsSound (resolve_line_ending dialect.line_ending) _ (λ crlf.
                  any-Holds IsSound (resolve_separator dialect.decimal_separator) _ (λ dec.
                    guard-Holds IsSound
                      (bytes_eq dialect.thousands_separator dec
                        && not (is_empty dialect.thousands_separator))
                      _ _
                      (λ thou. any-Holds IsSound (resolve_trim dialect.trim) _ (λ trims.
                        any-Holds IsSound (resolve_date_format dialect.date_format) _
                          (λ date_fmt. (apart, delim_rune, quote_rune)))))))))))

AreFilled-runes : (rows : List (List Bytes)) → AreFilled rows → AreFilled (rows_runes rows)
AreFilled-runes [] h = tt
AreFilled-runes ([] ∷ rows) (filled, h) = absurd filled
AreFilled-runes ((cell ∷ row) ∷ rows) (filled, h) = (tt, AreFilled-runes rows h)

encode_cells-runes : (row : List Bytes) → IsUtf8Row row → encode_cells (row_runes row) ≡ row
encode_cells-runes [] h = refl
encode_cells-runes (cell ∷ row) (valid, h) =
    ap (λ (c : Bytes). c ∷ encode_cells (row_runes row)) valid.written
    ∙ ap (λ (cs : List Bytes). cell ∷ cs) (encode_cells-runes row h)

encode_rows-runes : (rows : List (List Bytes)) → AreUtf8 rows → encode_rows (rows_runes rows) ≡ rows
encode_rows-runes [] h = refl
encode_rows-runes (row ∷ rows) (valid, h) =
    ap (λ (r : List Bytes). r ∷ encode_rows (rows_runes rows)) (encode_cells-runes row valid)
    ∙ ap (λ (rs : List (List Bytes)). row ∷ rs) (encode_rows-runes rows h)

parse_csv-write_rows :
    (d : CsvResolved) (rows : List (List Bytes))
    → is_rune d.delim ≡ true
    → is_rune d.quote ≡ true
    → IsReadable d
    → AreFilled rows
    → AreUtf8 rows
    → parse_csv d (write_rows d rows) ≡ some (ok rows)
unfolding parse_csv
parse_csv-write_rows d rows delim quote h filled valid =
    rw (runes-write_rows d delim quote rows valid) (
      ap encode_read (parse_fields-runes d (rows_runes rows) h (AreFilled-runes rows filled))
      ∙ ap (λ (rs : List (List Bytes)). some (ok rs)) (encode_rows-runes rows valid))

-- A file that writeCSV wrote in a dialect that was resolved, and whose delimiter and quote are no
-- line breaks, is read back by parseCSV: first the header, then the rows, byte for byte, if the
-- header and each row have a cell and all cells are valid UTF-8.
pub parse_csv-write_csv :
    (dialect : CsvDialect) (d : CsvResolved) (header : List Bytes) (rows : List (List Bytes))
    → resolve dialect ≡ ok d
    → is_break d.delim ≡ false
    → is_break d.quote ≡ false
    → IsFilled header
    → AreFilled rows
    → AreUtf8 (header ∷ rows)
    → parse_csv d (write_csv d header rows) ≡ some (ok (header ∷ rows))
unfolding write_csv
parse_csv-write_csv dialect d header rows resolved delim quote some_header filled valid =
    let (apart, delim_rune, quote_rune) =
      Holds-ok IsSound (resolve dialect) d (resolve-IsSound dialect) resolved in
    let readable : IsReadable d = record {
      apart = apart;
      delim_return = ground arith;
      delim_feed = ground arith;
      quote_return = ground arith;
      quote_feed = ground arith;
    } in
    parse_csv-write_rows d (header ∷ rows) delim_rune quote_rune readable (some_header, filled)
      valid
