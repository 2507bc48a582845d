-- ===== src/Csv/Ends.antt =====
-- internal/httpx/csv.go: parseCSV ends.
use mathlib.Core.Path.{subst}
use integrations_challenge.Prelude.{
  ℕ, zero, suc, ◌≤◌, ◌≡◌, inl, inr, refl, ap, true, List, [], ◌∷◌, ◌++◌, Bytes, some, Result,
  Result-cases, ok, err, ◌>>=◌, if_elim, Bool-cases, ◌==◌, length, arith,
}
use integrations_challenge.Decimal.Text.{is_empty}
use integrations_challenge.Text.Utf8.{runes}
use integrations_challenge.Csv.{CsvResolved, CsvError, is_delim_or_break}
use integrations_challenge.Csv.Read.{
  Field, push, line_after, quoted, after_close, unquoted, field, skip_line_feed, Progress,
  after_field, flush, parse_fields, parse_csv, encode_read, encode_result,
}

-- A field that was read leaves at most n runes.
abbrev Leaves : ℕ → Result CsvError Field → Type 0
Leaves n (ok (cell, rest, line)) = length rest ≤ n
Leaves n (err e) = Unit

push-Leaves :
    (n : ℕ) (r : ℕ) (result : Result CsvError Field)
    → Leaves n result
    → Leaves (suc n) (push r result)
push-Leaves n r (ok (cell, rest, line)) h = omega arith
push-Leaves n r (err e) h = tt

Leaves-more : (n m : ℕ) (result : Result CsvError Field) → n ≤ m → Leaves n result → Leaves m result
Leaves-more n m (ok (cell, rest, line)) h l = omega arith
Leaves-more n m (err e) h l = tt

quoted-Leaves : (quote line : ℕ) (s : Bytes) → Leaves (length s) (quoted quote line s)
unfolding quoted
quoted-Leaves quote line [] = tt
quoted-Leaves quote line (r ∷ []) =
    if_elim (Leaves 1) (r == quote) (λ closed. omega arith) (λ more. tt)
quoted-Leaves quote line (r ∷ s ∷ rest) =
    let inside = quoted-Leaves quote (line_after r line) (s ∷ rest) in
    let behind = quoted-Leaves quote line rest in
    elim (Bool-cases (r == quote)) [
      | inr more ↦
          rw (quoted, more)
            (push-Leaves (suc (length rest)) r (quoted quote (line_after r line) (s ∷ rest)) inside)
      | inl closing ↦ elim (Bool-cases (s == quote)) [
        | inl escaped ↦
            rw (quoted, closing, escaped)
              (Leaves-more (suc (length rest)) _ (push quote (quoted quote line rest)) (omega arith)
                (push-Leaves (length rest) quote (quoted quote line rest) behind))
        | inr closed ↦ rw (quoted, closing, closed) (omega arith)
      ]
    ]

-- A field ends where a delimiter, a line break or the end stands.
abbrev Stops : CsvResolved → Bytes → Type 0
Stops d [] = Unit
Stops d (r ∷ rest) = is_delim_or_break d r ≡ true

-- A field that was read ends so, and leaves at most n runes.
abbrev EndsWithin : CsvResolved → ℕ → Result CsvError Field → Type 0
EndsWithin d n (ok (cell, rest, line)) = (length rest ≤ n) × Stops d rest
EndsWithin d n (err e) = Unit

push-EndsWithin :
    (d : CsvResolved) (n : ℕ) (r : ℕ) (result : Result CsvError Field)
    → EndsWithin d n result
    → EndsWithin d (suc n) (push r result)
push-EndsWithin d n r (ok (cell, rest, line)) h = let few = h.0 in (omega arith, h.1)
push-EndsWithin d n r (err e) h = tt

after_close-EndsWithin :
    (d : CsvResolved) (n : ℕ) (result : Result CsvError Field)
    → Leaves n result
    → EndsWithin d (suc n) (result >>= after_close d)
after_close-EndsWithin d n (err e) h = tt
after_close-EndsWithin d n (ok (cell, [], line)) h = (omega arith, tt)
after_close-EndsWithin d n (ok (cell, r ∷ rest, line)) h =
    if_elim (EndsWithin d (suc n)) (is_delim_or_break d r) (λ ends. (omega arith, ends))
      (λ more. tt)

unquoted-EndsWithin :
    (d : CsvResolved) (line : ℕ) (s : Bytes) → EndsWithin d (length s) (unquoted d line s)
unfolding unquoted
unquoted-EndsWithin d line [] = (omega arith, tt)
unquoted-EndsWithin d line (r ∷ rest) =
    if_elim (EndsWithin d (suc (length rest))) (is_delim_or_break d r) (λ ends. (omega arith, ends))
      (λ inside.
        if_elim (EndsWithin d (suc (length rest))) (r == d.quote) (λ bare. tt)
          (λ plain.
            push-EndsWithin d (length rest) r (unquoted d line rest)
              (unquoted-EndsWithin d line rest)))

field-EndsWithin :
    (d : CsvResolved) (line : ℕ) (s : Bytes) → EndsWithin d (length s) (field d line s)
unfolding field
field-EndsWithin d line [] = (omega arith, tt)
field-EndsWithin d line (r ∷ rest) =
    if_elim (EndsWithin d (suc (length rest))) (r == d.quote)
      (λ opened.
        after_close-EndsWithin d (length rest) (quoted d.quote line rest)
          (quoted-Leaves d.quote line rest))
      (λ plain. unquoted-EndsWithin d line (r ∷ rest))

-- The text to come after a field that left some.
abbrev to_come : Progress → Bytes
to_come (line, rec, recs, rest) = rest

skip_line_feed-shorter : (s : Bytes) → length (skip_line_feed s) ≤ length s
skip_line_feed-shorter [] = omega arith
skip_line_feed-shorter (r ∷ rest) =
    if_elim (λ (t : Bytes). length t ≤ suc (length rest)) (r == 10) (λ fed. omega arith)
      (λ kept. omega arith)

after_field-shorter :
    (d : CsvResolved) (line : ℕ) (rec : List Bytes) (recs : List (List Bytes)) (n : ℕ)
    (rest : Bytes)
    → Stops d rest
    → length rest ≤ suc n
    → length (to_come (after_field d line rec recs rest)) ≤ n
unfolding after_field
after_field-shorter d line rec recs n [] stops few = omega arith
after_field-shorter d line rec recs n (r ∷ rest) stops few =
    let fed = skip_line_feed-shorter rest in
    if_elim (λ (p : Progress). length (to_come p) ≤ n) (r == d.delim)
      (λ delim.
        if_elim (λ (p : Progress). length (to_come p) ≤ n) (is_empty rest) (λ last. omega arith)
          (λ more. omega arith))
      (λ break.
        if_elim (λ (p : Progress). length (to_come p) ≤ n) (r == 13) (λ return. omega arith)
          (λ feed.
            if_elim (λ (p : Progress). length (to_come p) ≤ n) (r == 10) (λ at. omega arith)
              (λ none_left. ground arith)))

-- With as much fuel as there are runes the loop gives a result.
parse_fields-ends :
    (fuel : ℕ) (d : CsvResolved) (line : ℕ) (rec : List Bytes) (recs : List (List Bytes))
    (s : Bytes)
    → length s ≤ fuel
    → (result : Result CsvError (List (List Bytes))) × (parse_fields fuel d line rec recs s
        ≡ some result)
unfolding parse_fields
parse_fields-ends fuel d line rec recs [] few = (ok (flush rec recs), refl)
parse_fields-ends zero d line rec recs (r ∷ rest) few = absurd (omega arith)
parse_fields-ends (suc fuel) d line rec recs (r ∷ rest) few =
    let ends = field-EndsWithin d line (r ∷ rest) in
    elim (Result-cases (field d line (r ∷ rest))) [
      | inl (e, is) ↦ rw (parse_fields, is) (err e, refl)
      | inr ((cell, behind, at), is) ↦
          let (few_behind, stops) = subst (EndsWithin d (suc (length rest))) is ends in
          let (line', rec', recs', rest') = after_field d at (rec ++ cell ∷ []) recs behind in
          rw (parse_fields, is)
            (parse_fields-ends fuel d line' rec' recs' rest'
              (after_field-shorter d at (rec ++ cell ∷ []) recs fuel behind stops (omega arith)))
    ]

-- parseCSV gives records or an error for every text in every dialect, after at most as many fields
-- as the text has runes.
pub parse_csv-ends :
    (d : CsvResolved) (s : Bytes)
    → (result : Result CsvError (List (List Bytes))) × (parse_csv d s ≡ some result)
unfolding parse_csv
parse_csv-ends d s =
    let (result, ends) = parse_fields-ends (length (runes s)) d 1 [] [] (runes s) (omega arith) in
    (encode_result result, ap encode_read ends)
