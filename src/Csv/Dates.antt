-- ===== src/Csv/Dates.antt =====
-- internal/httpx/csv.go: a date that was written in a dialect is read back.
use mathlib.Core.Path.{subst}
use integrations_challenge.Prelude.{
  ℕ, ◌≡◌, inl, inr, refl, sym, ap, ◌∙◌, true, false, not, ◌||◌, [], ◌∷◌, ◌++◌, Bytes, codes,
  bytes_eq, Option, none, some, some-inj, Bool-cases, length, ◌==◌, ==→eq, arith,
}
use integrations_challenge.Dates.Text.{at_is, slice}
use integrations_challenge.Csv.Forms.{
  are_digits, in_format, date_parts_to, date_from_dialect, date_to_dialect,
}

module _ (a b c e m n x y : ℕ) where
  abbrev year : Bytes
  year = a ∷ b ∷ c ∷ e ∷ []

  abbrev month : Bytes
  month = m ∷ n ∷ []

  abbrev day : Bytes
  day = x ∷ y ∷ []

  abbrev date : Bytes
  date = a ∷ b ∷ c ∷ e ∷ b'-' ∷ m ∷ n ∷ b'-' ∷ x ∷ y ∷ []

  in_format-read :
      (format out : Bytes)
      → are_digits year ≡ true
      → are_digits month ≡ true
      → are_digits day ≡ true
      → bytes_eq format (codes "RFC3339") ≡ false
      → in_format format year month day ≡ some out
      → date_from_dialect out format ≡ some date
  unfolding date_from_dialect
  in_format-read format out ys ms ds canonical written =
      elim (Bool-cases (bytes_eq format (codes "DD.MM.YYYY"))) [
        | inl p ↦
            let is : some (day ++ b'.' ∷ month ++ b'.' ∷ year) ≡ some out =
              rw⁻¹ written (rw p refl) in
            subst (λ (o : Bytes). date_from_dialect o format ≡ some date) (some-inj is)
              (rw (date_from_dialect, canonical, p, ys, ms, ds) refl)
        | inr p ↦ elim (Bool-cases (bytes_eq format (codes "DD/MM/YYYY"))) [
          | inl q ↦
              let is : some (day ++ b'/' ∷ month ++ b'/' ∷ year) ≡ some out =
                rw⁻¹ written (rw (p, q) refl) in
              subst (λ (o : Bytes). date_from_dialect o format ≡ some date) (some-inj is)
                (rw (date_from_dialect, canonical, p, q, ys, ms, ds) refl)
          | inr q ↦ elim (Bool-cases (bytes_eq format (codes "MM/DD/YYYY"))) [
            | inl r ↦
                let is : some (month ++ b'/' ∷ day ++ b'/' ∷ year) ≡ some out =
                  rw⁻¹ written (rw (p, q, r) refl) in
                subst (λ (o : Bytes). date_from_dialect o format ≡ some date) (some-inj is)
                  (rw (date_from_dialect, canonical, p, q, r, ys, ms, ds) refl)
            | inr r ↦ elim (Bool-cases (bytes_eq format (codes "YYYYMMDD"))) [
              | inl s ↦
                  let is : some (year ++ month ++ day) ≡ some out =
                    rw⁻¹ written (rw (p, q, r, s) refl) in
                  subst (λ (o : Bytes). date_from_dialect o format ≡ some date) (some-inj is)
                    (rw (date_from_dialect, canonical, p, q, r, s, ys, ms, ds) refl)
              | inr s ↦
                  let no : ◌≡◌ {A = Option Bytes} none (some out) =
                    rw⁻¹ written (rw (p, q, r, s) refl) in
                  absurd (cc no)
            ]
          ]
        ]
      ]

  date_parts-read :
      (format out : Bytes)
      → bytes_eq format (codes "RFC3339") ≡ false
      → date_parts_to format year month day ≡ some out
      → date_from_dialect out format ≡ some date
  date_parts-read format out canonical written =
      elim (Bool-cases (not (are_digits year) || not (are_digits month) || not (are_digits day))) [
        | inl bad ↦
            let no : ◌≡◌ {A = Option Bytes} none (some out) = rw⁻¹ written (rw bad refl) in
            absurd (cc no)
        | inr good ↦
            let ys : are_digits year ≡ true = ground arith in
            let ms : are_digits month ≡ true = ground arith in
            let ds : are_digits day ≡ true = ground arith in
            in_format-read format out ys ms ds canonical (rw⁻¹ written (rw good refl))
      ]

-- A text of ten runes.
ten_runes :
    (s : Bytes)
    → (length s == 10) ≡ true
    → (a b c e f m n g x y : ℕ) × (s ≡ a ∷ b ∷ c ∷ e ∷ f ∷ m ∷ n ∷ g ∷ x ∷ y ∷ [])
ten_runes [] h = absurd (ground arith)
ten_runes (a ∷ []) h = absurd (ground arith)
ten_runes (a ∷ b ∷ []) h = absurd (ground arith)
ten_runes (a ∷ b ∷ c ∷ []) h = absurd (ground arith)
ten_runes (a ∷ b ∷ c ∷ e ∷ []) h = absurd (ground arith)
ten_runes (a ∷ b ∷ c ∷ e ∷ f ∷ []) h = absurd (ground arith)
ten_runes (a ∷ b ∷ c ∷ e ∷ f ∷ m ∷ []) h = absurd (ground arith)
ten_runes (a ∷ b ∷ c ∷ e ∷ f ∷ m ∷ n ∷ []) h = absurd (ground arith)
ten_runes (a ∷ b ∷ c ∷ e ∷ f ∷ m ∷ n ∷ g ∷ []) h = absurd (ground arith)
ten_runes (a ∷ b ∷ c ∷ e ∷ f ∷ m ∷ n ∷ g ∷ x ∷ []) h = absurd (ground arith)
ten_runes (a ∷ b ∷ c ∷ e ∷ f ∷ m ∷ n ∷ g ∷ x ∷ y ∷ []) h = (a, b, c, e, f, m, n, g, x, y, refl)
ten_runes (a ∷ b ∷ c ∷ e ∷ f ∷ m ∷ n ∷ g ∷ x ∷ y ∷ z ∷ s) h = absurd (ground arith)

ten_read :
    (a b c e f m n g x y : ℕ) (cell format out : Bytes)
    → cell ≡ a ∷ b ∷ c ∷ e ∷ f ∷ m ∷ n ∷ g ∷ x ∷ y ∷ []
    → bytes_eq format (codes "RFC3339") ≡ false
    → at_is cell 4 b'-' ≡ true
    → at_is cell 7 b'-' ≡ true
    → date_parts_to format (slice 0 4 cell) (slice 5 7 cell) (slice 8 10 cell) ≡ some out
    → date_from_dialect out format ≡ some cell
ten_read a b c e f m n g x y cell format out is canonical four seven parts =
    let at_four : (f == b'-') ≡ true = subst (λ (s : Bytes). at_is s 4 b'-' ≡ true) is four in
    let at_seven : (g == b'-') ≡ true = subst (λ (s : Bytes). at_is s 7 b'-' ≡ true) is seven in
    let known : date_parts_to format (year a b c e m n x y) (month a b c e m n x y)
          (day a b c e m n x y)
        ≡ some out =
      subst
        (λ (s : Bytes). date_parts_to format (slice 0 4 s) (slice 5 7 s) (slice 8 10 s) ≡ some out)
        is parts in
    let dashes : date a b c e m n x y ≡ cell =
      ap (λ (v : ℕ). a ∷ b ∷ c ∷ e ∷ v ∷ m ∷ n ∷ b'-' ∷ x ∷ y ∷ []) (sym (==→eq f b'-' at_four))
      ∙ ap (λ (v : ℕ). a ∷ b ∷ c ∷ e ∷ f ∷ m ∷ n ∷ v ∷ x ∷ y ∷ []) (sym (==→eq g b'-' at_seven))
      ∙ sym is in
    date_parts-read a b c e m n x y format out canonical known ∙ ap some dashes

-- A cell that dateToDialect converted is what dateFromDialect gives back, in every format.
pub date_from_dialect-date_to_dialect :
    (cell format out : Bytes)
    → date_to_dialect cell format ≡ some out
    → date_from_dialect out format ≡ some cell
unfolding date_to_dialect
date_from_dialect-date_to_dialect cell format out written =
    elim (Bool-cases (bytes_eq format (codes "RFC3339"))) [
      | inl same ↦
          let no : ◌≡◌ {A = Option Bytes} none (some out) =
            rw⁻¹ written (rw (date_to_dialect, same) refl) in
          absurd (cc no)
      | inr canonical ↦
          elim (Bool-cases
            (not (length cell == 10) || not (at_is cell 4 b'-') || not (at_is cell 7 b'-'))) [
              | inl bad ↦
                  let no : ◌≡◌ {A = Option Bytes} none (some out) =
                    rw⁻¹ written (rw (date_to_dialect, canonical, bad) refl) in
                  absurd (cc no)
              | inr good ↦
                  let long : (length cell == 10) ≡ true = ground arith in
                  let four : at_is cell 4 b'-' ≡ true = ground arith in
                  let seven : at_is cell 7 b'-' ≡ true = ground arith in
                  let parts : date_parts_to format (slice 0 4 cell) (slice 5 7 cell)
                        (slice 8 10 cell)
                      ≡ some out =
                    rw⁻¹ written (rw (date_to_dialect, canonical, good) refl) in
                  let (a, b, c, e, f, m, n, g, x, y, is) = ten_runes cell long in
                  ten_read a b c e f m n g x y cell format out is canonical four seven parts
            ]
    ]
