-- ===== src/Decimal/Sums.antt =====
-- Add and Sub: exact sums and differences at the larger scale, and when they overflow.
use native.Mathlib.Nat.{mul_assoc, mul-le-mul_right}
use integrations_challenge.Prelude.{
  ℕ, ◌+◌, ◌-◌, ◌*◌, ◌^◌, ◌<◌, ◌≤◌, ◌≡◌, ◌⊎◌, refl, sym, ◌∙◌, inl, inr, arith, Result, ok, err,
  ◌>>=◌,
}
use integrations_challenge.Prelude.Pow.{pow-add}
use integrations_challenge.Prelude.Int.{ℤ, pos, negsuc, abs, ◌+ℤ◌, ◌-ℤ◌, ◌*ℕ◌, abs-*ℕ, +ℤ-*ℕ, -ℤ-*ℕ}
use integrations_challenge.Decimal.{
  Decimal, IsDecimal, Error, overflow, common_scale, align, add_aligned, sub_aligned, add, sub,
  rescale,
}
use integrations_challenge.Decimal.Rescale.{nano, rescale-Rescaled, Rescaled}

-- What the sum or the difference of two values at one scale is: `exact`, or too wide.
abbrev Exact : ℤ → ℕ → Result Error Decimal → Type 0
Exact x s (ok r) = (abs x < 2 ^ 63) × (r ≡ record { unscaled = x; scale = s })
Exact x s (err overflow) = 2 ^ 63 ≤ abs x
Exact x s (err _) = ⊥

add_aligned-Exact :
    (a b : ℤ) (s : ℕ) → abs a < 2 ^ 63 → abs b < 2 ^ 63 → Exact (a +ℤ b) s (add_aligned a b s)
unfolding add_aligned
add_aligned-Exact (pos a) (pos b) s ha hb = ground arith
add_aligned-Exact (pos a) (negsuc b) s ha hb = ground arith
add_aligned-Exact (negsuc a) (pos b) s ha hb = ground arith
add_aligned-Exact (negsuc a) (negsuc b) s ha hb = ground arith

sub_aligned-Exact :
    (a b : ℤ) (s : ℕ) → abs a < 2 ^ 63 → abs b < 2 ^ 63 → Exact (a -ℤ b) s (sub_aligned a b s)
unfolding sub_aligned
sub_aligned-Exact (pos a) (pos b) s ha hb = ground arith
sub_aligned-Exact (pos a) (negsuc b) s ha hb = ground arith
sub_aligned-Exact (negsuc a) (pos b) s ha hb = ground arith
sub_aligned-Exact (negsuc a) (negsuc b) s ha hb = ground arith

-- A value in units of 10^-9 that needs more than 63 bits at scale `s`.
abbrev pub TooWide : ℕ → ℤ → Type 0
TooWide s x = 2 ^ 63 * 10 ^ (9 - s) ≤ abs x

-- What Add and Sub return for two operands and their exact result, all in units of 10^-9: that
-- result at the larger scale, or ErrOverflow because an operand or the result does not fit there.
abbrev pub Combined : Decimal → Decimal → ℤ → Result Error Decimal → Type 0
Combined d o x (ok r) = IsDecimal r × (r.scale ≡ common_scale d o) × (nano r ≡ x)
Combined d o x (err overflow) =
    let s = common_scale d o in TooWide s (nano d) ⊎ TooWide s (nano o) ⊎ TooWide s x
Combined d o x (err _) = ⊥

-- An operand brought to the common scale is exact, or too wide.
abbrev Lifted : Decimal → ℕ → Result Error Decimal → Type 0
Lifted d s (ok r) = IsDecimal r × (r.scale ≡ s) × (nano r ≡ nano d)
Lifted d s (err overflow) = TooWide s (nano d)
Lifted d s (err _) = ⊥

too_wide :
    (d : Decimal) (s : ℕ)
    → IsDecimal d
    → d.scale ≤ s
    → s ≤ 9
    → 2 ^ 63 ≤ abs d.unscaled * 10 ^ (s - d.scale)
    → TooWide s (nano d)
too_wide d s v h hs big =
    let split : 10 ^ (s - d.scale) * 10 ^ (9 - s) ≡ 10 ^ (9 - d.scale) =
      let e : s - d.scale + (9 - s) ≡ 9 - d.scale = omega arith in
      sym (pow-add 10 (s - d.scale) (9 - s)) ∙ rw e in
    rw (abs-*ℕ, ← split, ← mul_assoc (abs d.unscaled)) (mul-le-mul_right (10 ^ (9 - s)) big)

lift : (d : Decimal) (s : ℕ) → IsDecimal d → d.scale ≤ s → s ≤ 9 → Lifted d s (rescale d s)
lift d s v h hs = go (rescale d s) (rescale-Rescaled d s v)
  where
    go : (r : Result Error Decimal) → Rescaled d s r → Lifted d s r
    go (ok r) e = e
    go (err Error.scale_range) e = absurd (omega arith)
    go (err overflow) e = too_wide d s v h hs e.2
    go (err Error.inexact) e = absurd (omega arith)
    go (err _) e = e

-- The exact result at the common scale, in units of 10^-9.
combine :
    (d o : Decimal) (x y : ℤ) (s : ℕ) (r : Result Error Decimal)
    → common_scale d o ≡ s
    → s ≤ 9
    → x *ℕ 10 ^ (9 - s) ≡ y
    → Exact x s r
    → Combined d o y r
combine d o x y s (ok r) es hs e h = rw (h.1, es) (record { fits = h.0; scale_le = hs }, refl, e)
combine d o x y s (err overflow) es hs e h =
    let wide : 2 ^ 63 * 10 ^ (9 - s) ≤ abs (x *ℕ 10 ^ (9 - s)) =
      rw abs-*ℕ (mul-le-mul_right (10 ^ (9 - s)) h) in
    rw (es, ← e) (inr (inr wide))
combine d o x y s (err _) es hs e h = h

-- An operation on aligned values that is exact or overflows, and that respects scaling.
module _ (op : ℤ → ℤ → ℤ) (f : ℤ → ℤ → ℕ → Result Error Decimal)
    (f_Exact : (a b : ℤ) (s : ℕ) → abs a < 2 ^ 63 → abs b < 2 ^ 63 → Exact (op a b) s (f a b s))
    (op-*ℕ : (a b : ℤ) (g : ℕ) → op a b *ℕ g ≡ op (a *ℕ g) (b *ℕ g)) {d o : Decimal}
    (vd : IsDecimal d) (vo : IsDecimal o) where
  both :
      (s : ℕ) (da ob : Result Error Decimal)
      → common_scale d o ≡ s
      → s ≤ 9
      → Lifted d s da
      → Lifted o s ob
      → Combined d o
          (op (nano d) (nano o))
          (do (x, y, scale) ← (do a ← da; b ← ob; ok (a.unscaled, b.unscaled, s)); f x y scale)
  both s (ok a) (ok b) es hs la lb =
      let result : op a.unscaled b.unscaled *ℕ 10 ^ (9 - s) ≡ op (nano d) (nano o) =
        let left : a.unscaled *ℕ 10 ^ (9 - s) ≡ nano d = rw (← la.1) la.2 in
        let right : b.unscaled *ℕ 10 ^ (9 - s) ≡ nano o = rw (← lb.1) lb.2 in
        op-*ℕ a.unscaled b.unscaled (10 ^ (9 - s)) ∙ rw (left, right) in
      combine d o (op a.unscaled b.unscaled) (op (nano d) (nano o)) s _ es hs result
        (f_Exact a.unscaled b.unscaled s la.0.fits lb.0.fits)
  both s (ok a) (err overflow) es hs la lb = rw es (inr (inl lb))
  both s (ok a) (err _) es hs la lb = lb
  both s (err overflow) ob es hs la lb = rw es (inl la)
  both s (err _) ob es hs la lb = la

  aligned-Combined : Combined d o (op (nano d) (nano o)) (do (a, b, scale) ← align d o; f a b scale)
  unfolding align
  aligned-Combined =
      let s = common_scale d o in
      let small : s ≤ 9 = ground arith in
      let left : d.scale ≤ s = ground arith in
      let right : o.scale ≤ s = ground arith in
      both s (rescale d s) (rescale o s) refl small (lift d s vd left small)
        (lift o s vo right small)

-- For two valid decimals Add returns the exact sum at the larger scale, or ErrOverflow because an
-- operand or the sum needs more than 63 bits at that scale. It returns no other error.
pub add-Combined :
    {d o : Decimal} → IsDecimal d → IsDecimal o → Combined d o (nano d +ℤ nano o) (add d o)
unfolding add
add-Combined = aligned-Combined ◌+ℤ◌ add_aligned add_aligned-Exact +ℤ-*ℕ

-- For two valid decimals Sub returns the exact difference at the larger scale, or ErrOverflow
-- because an operand or the difference needs more than 63 bits at that scale. It returns no other
-- error.
pub sub-Combined :
    {d o : Decimal} → IsDecimal d → IsDecimal o → Combined d o (nano d -ℤ nano o) (sub d o)
unfolding sub
sub-Combined = aligned-Combined ◌-ℤ◌ sub_aligned sub_aligned-Exact -ℤ-*ℕ
