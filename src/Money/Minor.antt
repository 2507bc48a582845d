-- ===== src/Money/Minor.antt =====
-- internal/model/money.go: NewMoney, the exact conversion of a decimal into minor units.
use integrations_challenge.Prelude.{
  ℕ, ◌-◌, ◌^◌, Bytes, none, some, Option-cases, inl, inr, ◌≡◌, refl, sym, ap, ◌∙◌, Result, ok, err,
  ◌>>=◌,
}
use integrations_challenge.Prelude.Int.{◌*ℕ◌}
use integrations_challenge.Decimal.{
  Decimal, IsDecimal, Error, currency_unknown, rescale, minor_units,
}
use integrations_challenge.Decimal.Rescale.{Rescaled, nano, rescale-Rescaled}
use integrations_challenge.Money.{Money, currency_scale, decimal}

-- NewMoney
unfoldable pub new_money : Bytes → Decimal → Result Error Money
new_money currency d = elim (currency_scale currency) [
  | none ↦ err currency_unknown
  | some scale ↦ do
    minor ← minor_units d scale
    let m : Money = record { amount_minor = minor; currency = currency; scale = scale }
    ok m
]

-- What NewMoney returns: an amount of the same value at the scale of its currency, an unknown
-- currency, or the error of Rescale with its cause.
abbrev pub Minted : Bytes → Decimal → Result Error Money → Type 0
Minted currency d (ok m) =
    (m.currency ≡ currency) × (currency_scale currency ≡ some m.scale) × (nano (decimal m) ≡ nano d)
Minted currency d (err currency_unknown) = currency_scale currency ≡ none
Minted currency d (err e) = (s : ℕ) × (currency_scale currency ≡ some s) × Rescaled d s (err e)

Rescaled-Minted :
    (currency : Bytes) (d : Decimal) (s : ℕ)
    → currency_scale currency ≡ some s
    → (r : Result Error Decimal) → Rescaled d s r
    → Minted currency d (do
      minor ← (do x ← r; ok x.unscaled)
      let m : Money = record { amount_minor = minor; currency = currency; scale = s }
      ok m)
Rescaled-Minted currency d s e (ok r) (valid, scale, same) =
    (refl, e, ap (λ (t : ℕ). r.unscaled *ℕ 10 ^ (9 - t)) (sym scale) ∙ same)
Rescaled-Minted currency d s e (err currency_unknown) h = absurd h
Rescaled-Minted currency d s e (err _) h = (s, e, h)

-- NewMoney of a valid decimal keeps its exact value at the scale of the currency; it fails for a
-- currency outside the table, and otherwise only where Rescale to that scale fails, for its cause.
pub new_money-Minted :
    (currency : Bytes) (d : Decimal) → IsDecimal d → Minted currency d (new_money currency d)
unfolding new_money minor_units
new_money-Minted currency d valid = elim (Option-cases (currency_scale currency)) [
  | inl unknown ↦ rw (new_money, unknown) unknown
  | inr (s, e) ↦
      rw (new_money, e) (Rescaled-Minted currency d s e (rescale d s) (rescale-Rescaled d s valid))
]
