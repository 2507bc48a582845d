-- ===== src/Csv/Cells.antt =====
-- internal/httpx/csv.go: a cell that writeCSVRow wrote is read back.
use mathlib.Core.Path.{subst}
use integrations_challenge.Prelude.{
  ℕ, ◌≡◌, inl, inr, refl, sym, ap, ◌∙◌, true, false, [], ◌∷◌, ◌++◌, append_assoc, Bytes, ok,
  Bool-cases, ◌==◌, ==_refl, ==→eq, arith,
}
use integrations_challenge.Csv.{CsvResolved, is_delim_or_break, needs_quote, doubled}
use integrations_challenge.Csv.Runes.{rune_cell}
use integrations_challenge.Csv.Read.{push, line_after, quoted, unquoted, field}

-- A dialect that can be read back: its delimiter and its quote differ and are no line breaks.
pub record IsReadable (d : CsvResolved) : Type 0 where
  pub apart : (d.delim == d.quote) ≡ false
  pub delim_return : (d.delim == 13) ≡ false
  pub delim_feed : (d.delim == 10) ≡ false
  pub quote_return : (d.quote == 13) ≡ false
  pub quote_feed : (d.quote == 10) ≡ false

-- A cell without quotes, before a rune that ends it.
unquoted-cell :
    (d : CsvResolved) (line : ℕ) (cell : Bytes) (r : ℕ) (rest : Bytes)
    → needs_quote d cell ≡ false
    → is_delim_or_break d r ≡ true
    → unquoted d line (cell ++ r ∷ rest) ≡ ok (cell, r ∷ rest, line)
unfolding unquoted needs_quote
unquoted-cell d line [] r rest plain ends = rw (unquoted, ends) refl
unquoted-cell d line (c ∷ cell) r rest plain ends =
    let inside : is_delim_or_break d c ≡ false = ground arith in
    let bare : (c == d.quote) ≡ false = ground arith in
    let ih = unquoted-cell d line cell r rest (ground arith) ends in
    rw (unquoted, inside, bare) (ap (push c) ih)

-- The line at the end of a quoted cell.
abbrev line_behind : Bytes → ℕ → ℕ
line_behind [] line = line
line_behind (c ∷ cell) line = line_behind cell (line_after c line)

quoted-plain :
    (quote line : ℕ) (c : ℕ) (before : Bytes) (r : ℕ) (after : Bytes)
    → (c == quote) ≡ false
    → quoted quote line (c ∷ before ++ r ∷ after)
      ≡ push c (quoted quote (line_after c line) (before ++ r ∷ after))
unfolding quoted
quoted-plain quote line c [] r after plain = rw (quoted, plain) refl
quoted-plain quote line c (b ∷ before) r after plain = rw (quoted, plain) refl

-- A cell between its quotes, before a rune that is no quote.
quoted-cell :
    (quote line : ℕ) (cell : Bytes) (r : ℕ) (rest : Bytes)
    → (quote == 10) ≡ false
    → (r == quote) ≡ false
    → quoted quote line (doubled quote cell ++ quote ∷ r ∷ rest)
      ≡ ok (cell, r ∷ rest, line_behind cell line)
unfolding quoted
quoted-cell quote line [] r rest feed ends = rw (quoted, ==_refl quote, ends) refl
quoted-cell quote line (c ∷ cell) r rest feed ends = elim (Bool-cases (c == quote)) [
  | inl same ↦
      let is : quote ≡ c = sym (==→eq c quote same) in
      let no_feed : (c == 10) ≡ false = subst (λ (x : ℕ). (x == 10) ≡ false) is feed in
      let ih = quoted-cell quote line cell r rest feed ends in
      rw (same, quoted, ==_refl quote, no_feed, same, ih)
        (ap (λ (x : ℕ). ok (x ∷ cell, r ∷ rest, line_behind cell line)) is)
  | inr plain ↦
      let ih = quoted-cell quote (line_after c line) cell r rest feed ends in
      rw plain
        (quoted-plain quote line c (doubled quote cell) quote (r ∷ rest) plain ∙ ap (push c) ih)
]

field-plain :
    (d : CsvResolved) (line : ℕ) (cell : Bytes) (r : ℕ) (rest : Bytes)
    → needs_quote d cell ≡ false
    → is_delim_or_break d r ≡ true
    → (r == d.quote) ≡ false
    → field d line (cell ++ r ∷ rest) ≡ ok (cell, r ∷ rest, line)
unfolding field needs_quote
field-plain d line [] r rest plain ends no_quote =
    rw (field, no_quote) (unquoted-cell d line [] r rest plain ends)
field-plain d line (c ∷ cell) r rest plain ends no_quote =
    let bare : (c == d.quote) ≡ false = ground arith in
    rw (field, bare) (unquoted-cell d line (c ∷ cell) r rest plain ends)

-- A cell of a row, before a rune that ends it.
pub field-cell :
    (d : CsvResolved) (line : ℕ) (cell : Bytes) (r : ℕ) (rest : Bytes)
    → IsReadable d
    → is_delim_or_break d r ≡ true
    → (r == d.quote) ≡ false
    → (at : ℕ) × (field d line (rune_cell d cell ++ r ∷ rest) ≡ ok (cell, r ∷ rest, at))
unfolding field
field-cell d line cell r rest h ends no_quote = elim (Bool-cases (needs_quote d cell)) [
  | inl needs ↦
      let opened : field d line (d.quote ∷ (doubled d.quote cell ++ d.quote ∷ []) ++ r ∷ rest)
          ≡ ok (cell, r ∷ rest, line_behind cell line) =
        rw
          (
            field,
            ==_refl d.quote,
            append_assoc (doubled d.quote cell) (d.quote ∷ []) (r ∷ rest),
            quoted-cell d.quote line cell r rest h.quote_feed no_quote,
            ends,
          )
          refl in
      (line_behind cell line, rw needs opened)
  | inr plain ↦ (line, rw plain (field-plain d line cell r rest plain ends no_quote))
]
