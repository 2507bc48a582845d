-- ===== src/Match/Rates.antt =====
-- internal/miniblp/match.go: which exchange rate dailyRate finds.
use mathlib.Core.Path.{subst}
use integrations_challenge.Prelude.{
  ◌≡◌, ◌↔◌, ◌⊎◌, inl, inr, refl, sym, ◌∙◌, Bool, true, false, ◌&&◌, List, [], ◌∷◌, Bytes, bytes_eq,
  Option, none, some, Bool-cases, Option-cases, some-inj, arith,
}
use integrations_challenge.Prelude.Int.{ℤ, ◌≤ℤ◌, ltb_ℤ}
use integrations_challenge.Dates.Text.{in_half_open_range}
use integrations_challenge.Match.{
  Lookup, unreadable, missing, found, Tables, FxRate, is_daily, rates_of, better, best_rate,
  daily_rate,
}

-- A row is one of a list.
abbrev pub IsListed : FxRate → List FxRate → Type 0
IsListed r [] = ⊥
IsListed r (x ∷ xs) = (x ≡ r) ⊎ IsListed r xs

-- Its validity contains a date, or does not parse.
abbrev pub Covers : Bytes → FxRate → Type 0
Covers date r = in_half_open_range date r.valid_from r.valid_to ≡ some true

abbrev pub IsUndated : Bytes → FxRate → Type 0
IsUndated date r = in_half_open_range date r.valid_from r.valid_to ≡ none

-- No row of a list that a test selects has a higher sequence than `r`.
abbrev pub IsLast : Bytes → List FxRate → FxRate → Type 0
IsLast date rs r = (x : FxRate) → IsListed x rs → Covers date x → x.sequence ≤ℤ r.sequence

-- What the loop keeps, from what it kept before.
abbrev Kept : Bytes → List FxRate → Option FxRate → Option FxRate → Type 0
Kept date rs best (some r) =
    ((best ≡ some r) ⊎ (IsListed r rs × Covers date r))
    × IsLast date rs r
    × ((b : FxRate) → best ≡ some b → b.sequence ≤ℤ r.sequence)
Kept date rs best none =
    ((x : FxRate) × IsListed x rs × IsUndated date x)
    ⊎ ((best ≡ none) × ((x : FxRate) → IsListed x rs → Covers date x → ⊥))

-- What one step makes of the row that is kept.
record Improves (date : Bytes) (r : FxRate) (best next : Option FxRate) : Type 0 where
  kept : (next ≡ best) ⊎ ((next ≡ some r) × Covers date r)
  above_best :
      (b : FxRate) → best ≡ some b → (n : FxRate) × (next ≡ some n) × (b.sequence ≤ℤ n.sequence)
  above_row : Covers date r → (n : FxRate) × (next ≡ some n) × (r.sequence ≤ℤ n.sequence)

le_refl : (z : ℤ) → z ≤ℤ z
le_refl z = omega arith

better-Improves :
    (date : Bytes) (r : FxRate) (inside : Bool) (best : Option FxRate)
    → in_half_open_range date r.valid_from r.valid_to ≡ some inside
    → Improves date r best (better inside r best)
unfolding better
better-Improves date r false best e = record {
  kept = inl refl;
  above_best = λ b h. (b, h, le_refl b.sequence);
  above_row = λ c. absurd (cc (sym e ∙ c));
}
better-Improves date r true none e = record {
  kept = inr (refl, e);
  above_best = λ b h. absurd (cc h);
  above_row = λ c. (r, refl, le_refl r.sequence);
}
better-Improves date r true (some b) e = elim (Bool-cases (ltb_ℤ b.sequence r.sequence)) [
  | inl lower ↦ rw lower (record {
    kept = inr (refl, e);
    above_best = λ x h. (r, refl, rw (← some-inj h) (ground arith));
    above_row = λ c. (r, refl, le_refl r.sequence);
  })
  | inr upper ↦ rw upper (record {
    kept = inl refl;
    above_best = λ x h. (b, refl, rw (← some-inj h) (le_refl b.sequence));
    above_row = λ c. (b, refl, ground arith);
  })
]

module _ (date : Bytes) (r : FxRate) (rs : List FxRate) (best next : Option FxRate)
    (i : Improves date r best next) where
  nothing_kept : next ≡ none → best ≡ none
  nothing_kept gone = elim i.kept [
    | inl same ↦ sym same ∙ gone
    | inr (taken, covers) ↦ absurd (cc (sym taken ∙ gone))
  ]

  not_first : next ≡ none → Covers date r → ⊥
  not_first gone covers = let (n, e, le) = i.above_row covers in cc (sym e ∙ gone)

  step-Kept : (result : Option FxRate) → Kept date rs next result → Kept date (r ∷ rs) best result
  step-Kept none (inl (x, listed, undated)) = inl (x, inr listed, undated)
  step-Kept none (inr (gone, others)) = inr (
    nothing_kept gone,
    λ x listed covers. elim listed [
      | inl first ↦ not_first gone (subst (Covers date) (sym first) covers)
      | inr later ↦ others x later covers
    ],
  )
  step-Kept (some m) (origin, last, over) =
      let above : (n : FxRate) → next ≡ some n → n.sequence ≤ℤ m.sequence = over in
      (
        elim origin [
          | inl e ↦ elim i.kept [
            | inl same ↦ inl (sym same ∙ e)
            | inr (taken, covers) ↦
                let first = some-inj (sym taken ∙ e) in
                inr (inl first, subst (Covers date) first covers)
          ]
          | inr (listed, covers) ↦ inr (inr listed, covers)
        ],
        λ x listed covers. elim listed [
          | inl first ↦
              let (n, e, le) = i.above_row (subst (Covers date) (sym first) covers) in
              let top = above n e in
              subst (λ (y : FxRate). y.sequence ≤ℤ m.sequence) first (omega arith)
          | inr later ↦ last x later covers
        ],
        λ b e. let (n, e', le) = i.above_best b e in let top = above n e' in omega arith,
      )

best_rate-Kept :
    (date : Bytes) (rs : List FxRate) (best : Option FxRate)
    → Kept date rs best (best_rate date rs best)
unfolding best_rate
best_rate-Kept date [] none = inr (refl, λ x h c. h)
best_rate-Kept date [] (some r) =
    (inl refl, λ x h c. absurd h, λ b e. rw (← some-inj e) (le_refl r.sequence))
best_rate-Kept date (r ∷ rs) best =
    elim (Option-cases (in_half_open_range date r.valid_from r.valid_to)) [
      | inl undated ↦ rw (best_rate, undated) (inl (r, inl refl, undated))
      | inr (inside, e) ↦
          rw (best_rate, e)
            (step-Kept date r rs best (better inside r best) (better-Improves date r inside best e)
              _ (best_rate-Kept date rs (better inside r best)))
    ]

-- A daily row in the quote currency, not deleted, of a currency.
abbrev pub IsRateOf : Bytes → FxRate → Type 0
IsRateOf currency r = (is_daily r ≡ true) × (bytes_eq r.base currency ≡ true)

rates_of-IsListed :
    (currency : Bytes) (rs : List FxRate) (x : FxRate)
    → IsListed x (rates_of currency rs) ↔ (IsListed x rs × IsRateOf currency x)
unfolding rates_of
rates_of-IsListed currency [] x = (λ h. absurd h, λ h. absurd h.0)
rates_of-IsListed currency (r ∷ rs) x =
    let rest = rates_of-IsListed currency rs x in
    elim (Bool-cases (is_daily r && bytes_eq r.base currency)) [
      | inl selected ↦ rw selected (
        λ h. elim h [
          | inl e ↦ (inl e, subst (IsRateOf currency) e (ground arith, ground arith))
          | inr later ↦ let (l, p) = rest.0 later in (inr l, p)
        ],
        λ h. elim h.0 [ inl e ↦ inl e | inr later ↦ inr (rest.1 (later, h.1)) ],
      )
      | inr dropped ↦ rw dropped (
        λ h. let (l, p) = rest.0 h in (inr l, p),
        λ h. elim h.0 [
          | inl e ↦
              let (daily, based) = subst (IsRateOf currency) (sym e) h.1 in absurd (ground arith)
          | inr later ↦ rest.1 (later, h.1)
        ],
      )
    ]

-- What dailyRate finds among the rates of the store.
abbrev pub DailyRate : Bytes → Bytes → List FxRate → Lookup FxRate → Type 0
DailyRate currency date rates unreadable = ⊥
DailyRate currency date rates missing =
    ((x : FxRate) × IsListed x rates × IsRateOf currency x × IsUndated date x)
    ⊎ ((x : FxRate) → IsListed x rates → IsRateOf currency x → Covers date x → ⊥)
DailyRate currency date rates (found r) =
    IsListed r rates
    × IsRateOf currency r
    × Covers date r
    × ((x : FxRate)
        → IsListed x rates
        → IsRateOf currency x
        → Covers date x
        → x.sequence ≤ℤ r.sequence)

Kept-DailyRate :
    (currency date : Bytes) (rates : List FxRate) (best : Option FxRate)
    → Kept date (rates_of currency rates) none best
    → DailyRate currency date rates (elim best [ none ↦ missing | some r ↦ found r ])
Kept-DailyRate currency date rates none (inl (x, listed, undated)) =
    let (l, p) = (rates_of-IsListed currency rates x).0 listed in inl (x, l, p, undated)
Kept-DailyRate currency date rates none (inr (e, others)) =
    inr (λ x l p c. others x ((rates_of-IsListed currency rates x).1 (l, p)) c)
Kept-DailyRate currency date rates (some r) (inl e, last, over) = absurd (cc e)
Kept-DailyRate currency date rates (some r) (inr (listed, covers), last, over) =
    let (l, p) = (rates_of-IsListed currency rates r).0 listed in
    (l, p, covers, λ x l' p' c. last x ((rates_of-IsListed currency rates x).1 (l', p')) c)

-- Where the stored rates can be read, dailyRate finds a daily rate of the currency, in the quote
-- currency and not deleted, whose validity contains the date, and of the highest sequence among
-- those; it finds none only where no such rate contains the date or the validity of one does not parse.
pub daily_rate-DailyRate :
    (t : Tables) (currency date : Bytes) (rates : List FxRate)
    → t.scanned_rates ≡ some rates
    → DailyRate currency date rates (daily_rate t currency date)
unfolding daily_rate
daily_rate-DailyRate t currency date rates e =
    rw (daily_rate, e)
      (Kept-DailyRate currency date rates _ (best_rate-Kept date (rates_of currency rates) none))
