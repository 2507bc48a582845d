-- ===== src/Csv/Rows.antt =====
-- internal/httpx/csv.go: a row that writeCSVRow wrote is read back.
use integrations_challenge.Prelude.{
  ℕ, suc, ◌+◌, ◌≡◌, refl, ap, ◌∙◌, true, false, List, [], ◌∷◌, ◌++◌, append_assoc, Bytes, Option,
  Result, ok, if_elim, ◌==◌, ==_refl, arith,
}
use integrations_challenge.Decimal.Text.{is_empty}
use integrations_challenge.Csv.{CsvResolved, CsvError, is_delim_or_break, eol}
use integrations_challenge.Csv.Runes.{rune_cell, rune_cells}
use integrations_challenge.Csv.Read.{field, Progress, after_field, parse_fields}
use integrations_challenge.Csv.Cells.{IsReadable, field-cell}

-- The loop, from its progress.
abbrev resume : ℕ → CsvResolved → Progress → Option (Result CsvError (List (List Bytes)))
resume fuel d (line, rec, recs, rest) = parse_fields fuel d line rec recs rest

parse_fields-field :
    (fuel : ℕ) (d : CsvResolved) (line : ℕ) (rec : List Bytes) (recs : List (List Bytes))
    (s : Bytes) (r : ℕ) (t : Bytes) (cell behind : Bytes) (at : ℕ)
    → field d line (s ++ r ∷ t) ≡ ok (cell, behind, at)
    → parse_fields (suc fuel) d line rec recs (s ++ r ∷ t)
      ≡ resume fuel d (after_field d at (rec ++ cell ∷ []) recs behind)
unfolding parse_fields
parse_fields-field fuel d line rec recs [] r t cell behind at e = rw (parse_fields, e) refl
parse_fields-field fuel d line rec recs (c ∷ s) r t cell behind at e = rw (parse_fields, e) refl

parse_fields-cell :
    (fuel : ℕ) (d : CsvResolved) (line : ℕ) (rec : List Bytes) (recs : List (List Bytes))
    (cell : Bytes) (r : ℕ) (rest : Bytes)
    → IsReadable d
    → is_delim_or_break d r ≡ true
    → (r == d.quote) ≡ false
    → (at : ℕ) × (parse_fields (suc fuel) d line rec recs (rune_cell d cell ++ r ∷ rest)
        ≡ resume fuel d (after_field d at (rec ++ cell ∷ []) recs (r ∷ rest)))
parse_fields-cell fuel d line rec recs cell r rest h ends no_quote =
    let (at, e) = field-cell d line cell r rest h ends no_quote in
    (at, parse_fields-field fuel d line rec recs (rune_cell d cell) r rest cell (r ∷ rest) at e)

-- What stands behind a cell: a line break of either kind, or a delimiter and more.
after_field-return :
    (d : CsvResolved) (line : ℕ) (rec : List Bytes) (recs : List (List Bytes)) (rest : Bytes)
    → IsReadable d
    → after_field d line rec recs (13 ∷ 10 ∷ rest) ≡ (line + 1, [], recs ++ rec ∷ [], rest)
unfolding after_field
after_field-return d line rec recs rest h =
    let p = h.delim_return in
    let apart : (13 == d.delim) ≡ false = ground arith in rw (after_field, apart) refl

after_field-feed :
    (d : CsvResolved) (line : ℕ) (rec : List Bytes) (recs : List (List Bytes)) (rest : Bytes)
    → IsReadable d
    → after_field d line rec recs (10 ∷ rest) ≡ (line + 1, [], recs ++ rec ∷ [], rest)
unfolding after_field
after_field-feed d line rec recs rest h =
    let p = h.delim_feed in
    let apart : (10 == d.delim) ≡ false = ground arith in rw (after_field, apart) refl

after_field-delim :
    (d : CsvResolved) (line : ℕ) (rec : List Bytes) (recs : List (List Bytes)) (rest : Bytes)
    → is_empty rest ≡ false
    → after_field d line rec recs (d.delim ∷ rest) ≡ (line, rec, recs, rest)
unfolding after_field
after_field-delim d line rec recs rest more = rw (after_field, ==_refl d.delim, more) refl

-- The last cell of a row.
parse_fields-last :
    (fuel : ℕ) (d : CsvResolved) (line : ℕ) (rec : List Bytes) (recs : List (List Bytes))
    (cell rest : Bytes)
    → IsReadable d
    → (at : ℕ) × (parse_fields (suc fuel) d line rec recs (rune_cell d cell ++ (eol d ++ rest))
        ≡ parse_fields fuel d at [] (recs ++ (rec ++ cell ∷ []) ∷ []) rest)
parse_fields-last fuel d line rec recs cell rest h =
    let return_plain : (13 == d.quote) ≡ false = let p = h.quote_return in ground arith in
    let feed_plain : (10 == d.quote) ≡ false = let p = h.quote_feed in ground arith in
    let Reads : Bytes → Type 0 = λ (ending : Bytes).
      (at : ℕ) × (parse_fields (suc fuel) d line rec recs (rune_cell d cell ++ (ending ++ rest))
        ≡ parse_fields fuel d at [] (recs ++ (rec ++ cell ∷ []) ∷ []) rest) in
    if_elim Reads d.crlf
      (λ crlf.
        let (at, e) =
          parse_fields-cell fuel d line rec recs cell 13 (10 ∷ rest) h (ground arith)
            return_plain in
        (at + 1, e ∙ ap (resume fuel d) (after_field-return d at (rec ++ cell ∷ []) recs rest h)))
      (λ lf.
        let (at, e) =
          parse_fields-cell fuel d line rec recs cell 10 rest h (ground arith) feed_plain in
        (at + 1, e ∙ ap (resume fuel d) (after_field-feed d at (rec ++ cell ∷ []) recs rest h)))

-- Fuel for each cell of a row, and more.
abbrev pub fuel_for : List Bytes → ℕ → ℕ
fuel_for [] fuel = fuel
fuel_for (cell ∷ row) fuel = suc (fuel_for row fuel)

is_empty-before : (xs : Bytes) (ys : Bytes) → is_empty ys ≡ false → is_empty (xs ++ ys) ≡ false
is_empty-before [] ys h = h
is_empty-before (x ∷ xs) ys h = refl

is_empty-eol : (d : CsvResolved) (rest : Bytes) → is_empty (eol d ++ rest) ≡ false
is_empty-eol d rest =
    if_elim (λ (ending : Bytes). is_empty (ending ++ rest) ≡ false) d.crlf (λ crlf. refl)
      (λ lf. refl)

-- A row, which is not empty.
pub parse_fields-row :
    (fuel : ℕ) (d : CsvResolved) (line : ℕ) (rec : List Bytes) (recs : List (List Bytes))
    (cell : Bytes) (row : List Bytes) (rest : Bytes)
    → IsReadable d
    → (at : ℕ) × (parse_fields
          (fuel_for (cell ∷ row) fuel)
          d
          line
          rec
          recs
          (rune_cells d (cell ∷ row) ++ (eol d ++ rest))
        ≡ parse_fields fuel d at [] (recs ++ (rec ++ cell ∷ row) ∷ []) rest)
parse_fields-row fuel d line rec recs cell [] rest h =
    parse_fields-last fuel d line rec recs cell rest h
parse_fields-row fuel d line rec recs cell (next ∷ row) rest h =
    let behind = rune_cells d (next ∷ row) ++ (eol d ++ rest) in
    let self = ==_refl d.delim in
    let (at, e) =
      parse_fields-cell (fuel_for (next ∷ row) fuel) d line rec recs cell d.delim behind h
        (ground arith) h.apart in
    let more : is_empty behind ≡ false =
      is_empty-before (rune_cells d (next ∷ row)) (eol d ++ rest) (is_empty-eol d rest) in
    let (end, ih) = parse_fields-row fuel d at (rec ++ cell ∷ []) recs next row rest h in
    let whole : (rec ++ cell ∷ []) ++ next ∷ row ≡ rec ++ cell ∷ next ∷ row =
      append_assoc rec (cell ∷ []) (next ∷ row) in
    let cut : rune_cells d (cell ∷ next ∷ row) ++ (eol d ++ rest)
        ≡ rune_cell d cell ++ d.delim ∷ behind =
      append_assoc (rune_cell d cell) (d.delim ∷ rune_cells d (next ∷ row)) (eol d ++ rest) in
    (
      end,
      ap (parse_fields (fuel_for (cell ∷ next ∷ row) fuel) d line rec recs) cut
          ∙ e
          ∙ ap (resume (fuel_for (next ∷ row) fuel) d)
              (after_field-delim d at (rec ++ cell ∷ []) recs behind more)
          ∙ ih
          ∙ ap (λ (cells : List Bytes). parse_fields fuel d end [] (recs ++ cells ∷ []) rest) whole,
    )
