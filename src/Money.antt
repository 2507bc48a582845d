-- ===== src/Money.antt =====
-- internal/model/money.go: amounts in the minor units of a currency. An amount is an int64.
pub mod Laws
pub mod Minor
mod Tests
use integrations_challenge.Prelude.{
  ℕ, Bool, true, false, not, ◌&&◌, ◌||◌, ◌==◌, List, [], ◌∷◌, ◌++◌, Bytes, codes, bytes_eq, Option,
  none, some, Result, ok, err, ◌>>=◌, if◌then◌else◌,
}
use integrations_challenge.Prelude.Int.{
  ℤ, pos, negsuc, neg, wrap, ◌+ℤ◌, ltb_ℤ, leb_ℤ, ◌==ℤ◌, min_int64,
}
use integrations_challenge.Decimal.{Decimal, minor_units}

pub data MoneyError : Type 0 where
  currency_unknown currency_mismatch money_overflow inexact_amount : MoneyError

pub record Money : Type 0 where
  pub amount_minor : ℤ
  pub currency : Bytes
  pub scale : ℕ

-- currencyScales
abbrev currency_scales : List (Bytes × ℕ)
currency_scales =
    (codes "CHF", 2)
    ∷ (codes "EUR", 2)
    ∷ (codes "USD", 2)
    ∷ (codes "GBP", 2)
    ∷ (codes "SEK", 2)
    ∷ (codes "DKK", 2)
    ∷ (codes "NOK", 2)
    ∷ (codes "JPY", 0)
    ∷ (codes "HUF", 2)
    ∷ (codes "IDR", 2)
    ∷ []

abbrev lookup : Bytes → List (Bytes × ℕ) → Option ℕ
lookup code [] = none
lookup code ((c, scale) ∷ rows) = if bytes_eq code c then some scale else lookup code rows

-- CurrencyScale
unfoldable pub currency_scale : Bytes → Option ℕ
currency_scale code = lookup code currency_scales

-- Money.Decimal
abbrev pub decimal : Money → Decimal
decimal m = record { unscaled = m.amount_minor; scale = m.scale }

-- Money.Neg
abbrev pub negated : Money → Money
negated m = record m { amount_minor = wrap (neg m.amount_minor) }

-- Money.Add
unfoldable pub add : Money → Money → Result MoneyError Money
add m o =
    let a = m.amount_minor in
    let b = o.amount_minor in
    let sum = wrap (a +ℤ b) in
    if not (bytes_eq m.currency o.currency) || not (m.scale == o.scale)
    then err currency_mismatch
    else if ltb_ℤ (pos 0) a && ltb_ℤ (pos 0) b && leb_ℤ sum (pos 0)
        || ltb_ℤ a (pos 0) && ltb_ℤ b (pos 0) && leb_ℤ (pos 0) sum
    then err money_overflow
    else ok (record m { amount_minor = sum })

-- Money.Sub
unfoldable pub sub : Money → Money → Result MoneyError Money
sub m o = if o.amount_minor ==ℤ min_int64 then err money_overflow else add m (negated o)
