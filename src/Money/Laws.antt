-- ===== src/Money/Laws.antt =====
-- Sums of amounts are exact.
use mathlib.Core.Path.{subst}
use integrations_challenge.Prelude.{
  ℕ, ◌^◌, ◌<◌, ◌≡◌, ◌≢◌, ◌⊎◌, inl, inr, refl, Bool, true, false, not, ◌&&◌, ◌||◌, ◌==◌, Bytes,
  bytes_eq, bytes_eq_refl, bytes_eq_sound, Bool-cases, sym, ap, Result, ok, err, if_elim, arith,
}
use integrations_challenge.Prelude.Int.{
  ℤ, pos, negsuc, neg, wrap, ◌+ℤ◌, ◌-ℤ◌, ltb_ℤ, leb_ℤ, ◌==ℤ◌, ==ℤ_eq, min_int64,
}
use integrations_challenge.Money.{
  Money, MoneyError, currency_mismatch, money_overflow, add, sub, negated,
}

-- An int64.
abbrev pub InRange : ℤ → Type 0
InRange (pos n) = n < 2 ^ 63
InRange (negsuc n) = n < 2 ^ 63

-- What the sum or the difference of two amounts, exactly x, is.
abbrev pub Summed : Money → Money → ℤ → Result MoneyError Money → Type 0
Summed m o x (ok r) =
    (m.currency ≡ o.currency)
    × (m.scale ≡ o.scale)
    × InRange x
    × (r ≡ record { amount_minor = x; currency = m.currency; scale = m.scale })
Summed m o x (err money_overflow) =
    (m.currency ≡ o.currency) × (m.scale ≡ o.scale) × (InRange x → ⊥)
Summed m o x (err currency_mismatch) = (m.currency ≢ o.currency) ⊎ (m.scale ≢ o.scale)
Summed m o x (err _) = ⊥

differ : (a b : Bytes) (s t : ℕ) → (not (bytes_eq a b) || not (s == t)) ≡ true → (a ≢ b) ⊎ (s ≢ t)
differ a b s t h = elim (Bool-cases (bytes_eq a b)) [
  | inl same ↦ inr (ground arith)
  | inr other ↦ inl (λ e.
      let r = bytes_eq_refl b in
      subst (λ (x : Bytes). bytes_eq x b ≡ false → ⊥) (sym e) (ground arith) other)
]

agree : (a b : Bytes) (s t : ℕ) → (not (bytes_eq a b) || not (s == t)) ≡ false → (a ≡ b) × (s ≡ t)
agree a b s t h =
    let same : bytes_eq a b ≡ true = ground arith in (bytes_eq_sound a b same, ground arith)

-- The overflow test of Add sees exactly the sums that are no int64.
abbrev overflows : ℤ → ℤ → Bool
overflows a b =
    let sum = wrap (a +ℤ b) in
    ltb_ℤ (pos 0) a && ltb_ℤ (pos 0) b && leb_ℤ sum (pos 0)
    || ltb_ℤ a (pos 0) && ltb_ℤ b (pos 0) && leb_ℤ (pos 0) sum

overflows_lem : (a b : ℤ) → InRange a → InRange b → overflows a b ≡ true → InRange (a +ℤ b) → ⊥
unfolding ◌+ℤ◌
overflows_lem (pos a) (pos b) ha hb h r = ground arith
overflows_lem (pos a) (negsuc b) ha hb h r = ground arith
overflows_lem (negsuc a) (pos b) ha hb h r = ground arith
overflows_lem (negsuc a) (negsuc b) ha hb h r = ground arith

fits_lem :
    (a b : ℤ)
    → InRange a
    → InRange b
    → overflows a b ≡ false
    → InRange (a +ℤ b) × (wrap (a +ℤ b) ≡ a +ℤ b)
unfolding ◌+ℤ◌
fits_lem (pos a) (pos b) ha hb h = ground arith
fits_lem (pos a) (negsuc b) ha hb h = ground arith
fits_lem (negsuc a) (pos b) ha hb h = ground arith
fits_lem (negsuc a) (negsuc b) ha hb h = ground arith

-- Add of two int64 amounts is their exact sum in their common currency and scale; it reports an
-- overflow exactly when that sum is no int64, and a mismatch only where the two differ.
pub add-Summed :
    (m o : Money)
    → InRange m.amount_minor
    → InRange o.amount_minor
    → Summed m o (m.amount_minor +ℤ o.amount_minor) (add m o)
unfolding add
add-Summed m o hm ho =
    let a = m.amount_minor in
    let b = o.amount_minor in
    if_elim (Summed m o (a +ℤ b)) (not (bytes_eq m.currency o.currency) || not (m.scale == o.scale))
      (λ apart. differ m.currency o.currency m.scale o.scale apart)
      (λ alike.
        let same = agree m.currency o.currency m.scale o.scale alike in
        if_elim (Summed m o (a +ℤ b)) (overflows a b)
          (λ over. (same.0, same.1, overflows_lem a b hm ho over))
          (λ fits.
            let exact = fits_lem a b hm ho fits in
            (same.0, same.1, exact.0, ap (λ (x : ℤ). record m { amount_minor = x }) exact.1)))

negated_lem :
    (a b : ℤ)
    → InRange b
    → (b ==ℤ min_int64) ≡ false
    → InRange (wrap (neg b)) × (a +ℤ wrap (neg b) ≡ a -ℤ b)
unfolding ◌+ℤ◌ ◌-ℤ◌
negated_lem (pos a) (pos b) hb h = ground arith
negated_lem (pos a) (negsuc b) hb h = ground arith
negated_lem (negsuc a) (pos b) hb h = ground arith
negated_lem (negsuc a) (negsuc b) hb h = ground arith

-- Sub of two int64 amounts is their exact difference in their common currency and scale, an
-- overflow where that is no int64, and a mismatch only where the two differ; but the least int64 is
-- never subtracted, and is an overflow.
pub sub-Summed :
    (m o : Money)
    → InRange m.amount_minor
    → InRange o.amount_minor
    → ((o.amount_minor ≡ min_int64) × (sub m o ≡ err money_overflow))
      ⊎ Summed m o (m.amount_minor -ℤ o.amount_minor) (sub m o)
unfolding sub
sub-Summed m o hm ho =
    let a = m.amount_minor in
    let b = o.amount_minor in
    if_elim
      (λ (r : Result MoneyError Money).
        ((b ≡ min_int64) × (r ≡ err money_overflow)) ⊎ Summed m o (a -ℤ b) r)
      (b ==ℤ min_int64) (λ least. inl (==ℤ_eq b min_int64 least, refl))
      (λ other.
        let turned = negated_lem a b ho other in
        inr (
          subst (λ (x : ℤ). Summed m (negated o) x (add m (negated o))) turned.1
            (add-Summed m (negated o) hm turned.0)))
