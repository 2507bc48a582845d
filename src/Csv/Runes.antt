-- ===== src/Csv/Runes.antt =====
-- internal/httpx/csv.go: the runes of what writeCSVRow writes.
use integrations_challenge.Prelude.{
  ℕ, inl, inr, ◌≡◌, refl, sym, ap, ◌∙◌, true, List, [], ◌∷◌, ◌++◌, append_assoc, append-nil, Bytes,
  if◌then◌else◌, if_elim, Bool-cases, ◌==◌,
}
use integrations_challenge.Text.Utf8.{
  is_rune, runes_behind, runes, encode_rune, encode, decode_rune,
}
use integrations_challenge.Text.Utf8.RoundTrip.{
  AreRunes, runes-encode, runes-AreRunes, IsUtf8, runes-append,
}
use integrations_challenge.Csv.{
  CsvResolved, needs_quote, doubled, write_cell, write_cells, eol, write_row, write_rows,
}

abbrev pub rune_cell : CsvResolved → List ℕ → List ℕ
rune_cell d cell =
    if needs_quote d cell then d.quote ∷ (doubled d.quote cell ++ d.quote ∷ []) else cell

abbrev pub rune_cells : CsvResolved → List (List ℕ) → List ℕ
rune_cells d [] = []
rune_cells d (cell ∷ []) = rune_cell d cell
rune_cells d (cell ∷ next ∷ row) = rune_cell d cell ++ d.delim ∷ rune_cells d (next ∷ row)

unfoldable pub rune_row : CsvResolved → List (List ℕ) → List ℕ
rune_row d row = rune_cells d row ++ eol d

abbrev pub rune_rows : CsvResolved → List (List (List ℕ)) → List ℕ
rune_rows d [] = []
rune_rows d (row ∷ rows) = rune_row d row ++ rune_rows d rows

abbrev pub row_runes : List Bytes → List (List ℕ)
row_runes [] = []
row_runes (cell ∷ row) = runes cell ∷ row_runes row

abbrev pub rows_runes : List (List Bytes) → List (List (List ℕ))
rows_runes [] = []
rows_runes (row ∷ rows) = row_runes row ∷ rows_runes rows

-- Rows of which every cell is valid UTF-8.
abbrev pub IsUtf8Row : List Bytes → Type 0
IsUtf8Row [] = Unit
IsUtf8Row (cell ∷ row) = IsUtf8 cell × IsUtf8Row row

abbrev pub AreUtf8 : List (List Bytes) → Type 0
AreUtf8 [] = Unit
AreUtf8 (row ∷ rows) = IsUtf8Row row × AreUtf8 rows

doubled-AreRunes :
    (quote : ℕ) (s rest : List ℕ)
    → is_rune quote ≡ true
    → AreRunes s
    → AreRunes rest
    → AreRunes (doubled quote s ++ rest)
doubled-AreRunes quote [] rest q h k = k
doubled-AreRunes quote (r ∷ s) rest q (valid, h) k =
    let ih = doubled-AreRunes quote s rest q h k in
    if_elim (λ (xs : List ℕ). AreRunes (xs ++ rest)) (r == quote) (λ same. (q, (valid, ih)))
      (λ other. (valid, ih))

module _ (d : CsvResolved) (delim : is_rune d.delim ≡ true) (quote : is_rune d.quote ≡ true) where
  runes-write_cell :
      (cell t : Bytes)
      → IsUtf8 cell
      → runes (write_cell d cell ++ t) ≡ rune_cell d (runes cell) ++ runes t
  runes-write_cell cell t valid = elim (Bool-cases (needs_quote d (runes cell))) [
    | inl needs ↦ rw needs (
        runes-encode (d.quote ∷ (doubled d.quote (runes cell) ++ d.quote ∷ [])) t (
          quote,
          doubled-AreRunes d.quote (runes cell) (d.quote ∷ []) quote (runes-AreRunes cell)
              (quote, tt),
        ))
    | inr plain ↦ rw plain (runes-append cell t valid)
  ]

  runes-write_cells :
      (row : List Bytes) (t : Bytes)
      → IsUtf8Row row
      → runes (write_cells d row ++ t) ≡ rune_cells d (row_runes row) ++ runes t
  runes-write_cells [] t h = refl
  runes-write_cells (cell ∷ []) t (valid, h) = runes-write_cell cell t valid
  runes-write_cells (cell ∷ next ∷ row) t (valid, h) =
      let behind = write_cells d (next ∷ row) in
      let ih = runes-write_cells (next ∷ row) t h in
      let cut : (write_cell d cell ++ (encode_rune d.delim ++ behind)) ++ t
          ≡ write_cell d cell ++ (encode (d.delim ∷ []) ++ (behind ++ t)) =
        append_assoc (write_cell d cell) (encode_rune d.delim ++ behind) t
        ∙ ap (λ (x : Bytes). write_cell d cell ++ x)
            (append_assoc (encode_rune d.delim) behind t
              ∙ ap (λ (x : Bytes). x ++ (behind ++ t)) (sym (append-nil (encode_rune d.delim)))) in
      ap runes cut
      ∙ runes-write_cell cell (encode (d.delim ∷ []) ++ (behind ++ t)) valid
      ∙ ap (λ (xs : List ℕ). rune_cell d (runes cell) ++ xs)
          (runes-encode (d.delim ∷ []) (behind ++ t) (delim, tt)
            ∙ ap (λ (xs : List ℕ). d.delim ∷ xs) ih)
      ∙ sym (
          append_assoc (rune_cell d (runes cell)) (d.delim ∷ rune_cells d (row_runes (next ∷ row)))
            (runes t))

  runes-eol : (t : Bytes) → runes (eol d ++ t) ≡ eol d ++ runes t
  unfolding runes_behind decode_rune
  runes-eol t =
      if_elim (λ (ending : Bytes). runes (ending ++ t) ≡ ending ++ runes t) d.crlf (λ crlf. refl)
        (λ lf. refl)

  -- What is read of the rows that were written are the rows of their runes.
  pub runes-write_rows :
      (rows : List (List Bytes))
      → AreUtf8 rows
      → runes (write_rows d rows) ≡ rune_rows d (rows_runes rows)
  unfolding write_row rune_row runes_behind
  runes-write_rows [] h = refl
  runes-write_rows (row ∷ rows) (valid, h) =
      let behind = write_rows d rows in
      ap runes (append_assoc (write_cells d row) (eol d) behind)
      ∙ runes-write_cells row (eol d ++ behind) valid
      ∙ ap (λ (xs : List ℕ). rune_cells d (row_runes row) ++ xs)
          (runes-eol behind ∙ ap (λ (xs : List ℕ). eol d ++ xs) (runes-write_rows rows h))
      ∙ sym (append_assoc (rune_cells d (row_runes row)) (eol d) (rune_rows d (rows_runes rows)))
