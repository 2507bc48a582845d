-- ===== src/Match/Quantity.antt =====
-- internal/miniblp/match.go: what convertQuantity computes.
use mathlib.Core.Path.{subst}
use integrations_challenge.Prelude.{
  ℕ, suc, ◌+◌, ◌-◌, ◌*◌, ◌%◌, ◌^◌, ◌≤◌, ◌<◌, ◌≡◌, ◌≢◌, ◌⊎◌, inl, inr, refl, sym, ap, ◌∙◌, Bool,
  true, false, Result, ok, err, ◌>>=◌, if_elim, Bool-cases, arith,
}
use integrations_challenge.Prelude.Int.{
  ℤ, pos, negsuc, abs-neg, abs, ◌*ℕ◌, ◌≤ℤ◌, ◌==ℤ◌, max_int64, min_int64, ==ℤ_eq, abs-*ℕ,
}
use integrations_challenge.Decimal.{
  Decimal, IsDecimal, Error, inexact, overflow, scale_range, factor_range, new_decimal, mul_rate,
  rescale,
}
use integrations_challenge.Decimal.Rescale.{Rescaled, nano, rescale-Rescaled}
use integrations_challenge.Decimal.MulRate.{
  Converted, RoundsTo, numerator, divisor, opposite, with_sign, mul_rate-Converted,
}
use integrations_challenge.Match.{
  UomConversion, QuantityError, zero_denominator, inconvertible, quantity_result, convert_quantity,
}

-- The numerator of a conversion as a decimal.
abbrev pub whole : UomConversion → Decimal
whole c = record { unscaled = c.numerator; scale = 0 }

-- A magnitude that is the exact quotient at nine decimals, rounded half away from zero.
abbrev pub AtNine : Decimal → UomConversion → ℕ → Type 0
AtNine qty c q = RoundsTo (numerator qty (whole c) 9) (divisor qty (whole c) c.denominator) q

-- What convertQuantity returns.
abbrev pub Quantity : Decimal → UomConversion → Result QuantityError Decimal → Type 0
Quantity qty c (ok b) =
    IsDecimal b
    × (b.scale ≡ 3)
    × ((q : ℕ) × (b.unscaled *ℕ 10 ^ 6 ≡ with_sign (opposite qty (whole c)) q) × AtNine qty c q)
Quantity qty c (err zero_denominator) = c.denominator ≡ pos 0
Quantity qty c (err (inconvertible inexact)) = (q : ℕ) × AtNine qty c q × (q % 10 ^ 6 ≢ 0)
Quantity qty c (err (inconvertible factor_range)) = c.denominator ≤ℤ pos 0
Quantity qty c (err (inconvertible overflow)) =
    (c.numerator ≡ min_int64)
    ⊎ (2 ^ 128 ≤ numerator qty (whole c) 9)
    ⊎ (2 ^ 128 ≤ divisor qty (whole c) c.denominator)
    ⊎ ((q : ℕ) × AtNine qty c q × (2 ^ 63 ≤ q))
Quantity qty c (err (inconvertible _)) = ⊥

int64-fits : (z : ℤ) → min_int64 ≤ℤ z → z ≤ℤ max_int64 → (z ==ℤ min_int64) ≡ false → abs z < 2 ^ 63
int64-fits (pos n) low high other = ground arith
int64-fits (negsuc n) low high other = ground arith

abs-with_sign : (negative : Bool) (q : ℕ) → abs (with_sign negative q) ≡ q
abs-with_sign true q = abs-neg q
abs-with_sign false q = refl

times_one : (z : ℤ) → z *ℕ 1 ≡ z
times_one (pos n) = ap pos (omega arith)
times_one (negsuc n) = let one : suc n * 1 ≡ suc n = omega arith in rw one refl

-- Equal values at three and at nine decimals.
three_to_nine :
    (b wide : Decimal)
    → b.scale ≡ 3
    → wide.scale ≡ 9
    → nano b ≡ nano wide
    → b.unscaled *ℕ 10 ^ 6 ≡ wide.unscaled
three_to_nine b wide three nine same =
    ap (λ (s : ℕ). b.unscaled *ℕ 10 ^ (9 - s)) (sym three)
    ∙ same
    ∙ ap (λ (s : ℕ). wide.unscaled *ℕ 10 ^ (9 - s)) nine
    ∙ times_one wide.unscaled

module _ (qty : Decimal) (c : UomConversion) where
  narrowed :
      (wide : Decimal) (q : ℕ)
      → wide.scale ≡ 9
      → wide.unscaled ≡ with_sign (opposite qty (whole c)) q
      → AtNine qty c q
      → (r : Result Error Decimal) → Rescaled wide 3 r
      → Quantity qty c (quantity_result r)
  narrowed wide q nine signed rounds (ok b) (valid, three, same) =
      (valid, three, (q, three_to_nine b wide three nine same ∙ signed, rounds))
  narrowed wide q nine signed rounds (err inexact) (lower, rest) =
      let magnitude : abs wide.unscaled ≡ q =
        rw signed (abs-with_sign (opposite qty (whole c)) q) in
      let steps : wide.scale - 3 ≡ 6 = omega arith in (q, rounds, rw (magnitude, steps) at rest)
  narrowed wide q nine signed rounds (err overflow) (low, higher, big) = absurd (omega arith)
  narrowed wide q nine signed rounds (err scale_range) h = absurd (omega arith)
  narrowed wide q nine signed rounds (err factor_range) h = absurd h
  narrowed wide q nine signed rounds (err _) h = h

  widened :
      (r : Result Error Decimal)
      → Converted qty (whole c) c.denominator 9 r
      → Quantity qty c (quantity_result (do wide ← r; rescale wide 3))
  widened (ok wide) (valid, nine, (q, signed, rounds)) =
      narrowed wide q nine signed rounds (rescale wide 3) (rescale-Rescaled wide 3 valid)
  widened (err scale_range) h = absurd (omega arith)
  widened (err factor_range) h = h
  widened (err overflow) h = inr h
  widened (err inexact) h = absurd h
  widened (err _) h = h

-- convertQuantity of a valid quantity by an int64 ratio: a result has three decimals and is the exact
-- quotient after it was rounded half away from zero to nine decimals; ErrInexact means that the
-- quotient so rounded has more than three decimals, and the other errors have their stated cause.
pub convert_quantity-Quantity :
    (qty : Decimal) (c : UomConversion)
    → IsDecimal qty
    → min_int64 ≤ℤ c.numerator
    → c.numerator ≤ℤ max_int64
    → c.denominator ≤ℤ max_int64
    → Quantity qty c (convert_quantity qty c)
unfolding convert_quantity new_decimal
convert_quantity-Quantity qty c valid low high den =
    if_elim (Quantity qty c) (c.denominator ==ℤ pos 0) (λ zero. ==ℤ_eq c.denominator (pos 0) zero)
      (λ some_den. elim (Bool-cases (c.numerator ==ℤ min_int64)) [
        | inl least ↦ rw least (inl (==ℤ_eq c.numerator min_int64 least))
        | inr other ↦ rw other (
            widened qty c (mul_rate qty (whole c) c.denominator 9) (
              mul_rate-Converted qty (whole c) c.denominator 9 valid
                (record { fits = int64-fits c.numerator low high other; scale_le = omega arith })
                den))
      ])

nearest : (b d n : ℕ) → d ≤ 1000000 → RoundsTo (n * 10 ^ 9) d (b * 10 ^ 6) → b * d ≡ n * 1000
nearest b d n small (under, over) =
    let least : b * 10 ^ 6 * (2 * d) ≡ 2000000 * (b * d) = grind arith in
    let next : (b * 10 ^ 6 + 1) * (2 * d) ≡ 2000000 * (b * d) + 2 * d = grind arith in omega arith

-- Where the denominator with the decimals of the quantity is at most a million, no rounding hides: a
-- result of convertQuantity is the exact quotient.
pub convert_quantity-exact :
    (qty : Decimal) (c : UomConversion) (b : Decimal)
    → IsDecimal qty
    → min_int64 ≤ℤ c.numerator
    → c.numerator ≤ℤ max_int64
    → c.denominator ≤ℤ max_int64
    → abs c.denominator * 10 ^ qty.scale ≤ 1000000
    → convert_quantity qty c ≡ ok b
    → abs b.unscaled * (abs c.denominator * 10 ^ qty.scale)
      ≡ abs qty.unscaled * abs c.numerator * 1000
convert_quantity-exact qty c b valid low high den small e =
    let (fine, three, (q, nine, rounds)) =
      subst (Quantity qty c) e (convert_quantity-Quantity qty c valid low high den) in
    let magnitude : abs b.unscaled * 10 ^ 6 ≡ q =
      sym (abs-*ℕ b.unscaled (10 ^ 6)) ∙ ap abs nine ∙ abs-with_sign (opposite qty (whole c)) q in
    let scales : qty.scale + 0 ≡ qty.scale = omega arith in
    nearest (abs b.unscaled) (abs c.denominator * 10 ^ qty.scale)
      (abs qty.unscaled * abs c.numerator) small (rw magnitude (rw scales at rounds))
