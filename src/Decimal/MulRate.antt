-- ===== src/Decimal/MulRate.antt =====
-- MulRate: commercial rounding of the exact quotient, the sign, and when it overflows.
use native.Mathlib.Nat.{one-le-pow}
use mathlib.Core.Bool.{xor}
use integrations_challenge.Prelude.{
  ℕ, ◌+◌, ◌-◌, ◌*◌, ◌^◌, ◌<◌, ◌≤◌, ◌≡◌, ◌⊎◌, refl, ap, ◌∙◌, inl, inr, Bool, true, false, not, ◌&&◌,
  ◌||◌, ◌==◌, arith, Bool-cases, Option-cases, Option, none, some, Result, ok, err, if◌then◌else◌,
  ltb, ◌>>=◌,
}
use integrations_challenge.Prelude.Int.{
  ℤ, pos, abs, neg, ◌≤ℤ◌, to_u64, leb_ℤ, wrap, wrap_id, signed, abs-neg, max_int64,
}
use integrations_challenge.U128.{
  U128, IsWords, value, Partial, from_u64, is_zero, at_least, div_mod, cmp as cmp_u128,
  sub as sub_u128, add as add_u128,
}
use integrations_challenge.U128.Arith.{
  Scaled, at_least-le, at_least-lt, value-lt, sub-value, add-fits, add-value, add-wraps, is_zero-eq,
  mul_pow10-Scaled, mul64-IsWords, mul64-value, from_u64-IsWords, from_u64-value,
}
use integrations_challenge.U128.DivMod.{IsQuotient, div_mod-DividesExactly}
use integrations_challenge.Decimal.{
  Decimal, IsDecimal, Error, overflow, scale_range, factor_range, sign, is_less, or_overflow,
  or_panic, round_quotient, signed_result, mul_rate,
}
use integrations_challenge.Decimal.Compare.{magnitude-eq-abs}

-- `q` is n / d rounded to the nearest number, a half upward.
abbrev pub RoundsTo : ℕ → ℕ → ℕ → Type 0
RoundsTo n d q = (q * (2 * d) ≤ 2 * n + d) × (2 * n + d < (q + 1) * (2 * d))

round_down : (n d q r : ℕ) → n ≡ q * d + r → r < d → 2 * r < d → RoundsTo n d q
round_down n d q r e h half = omega arith

round_up : (n d q r : ℕ) → n ≡ q * d + r → r < d → d ≤ 2 * r → RoundsTo n d (q + 1)
round_up n d q r e h half = omega arith

-- The rounding step, from an exact division.
abbrev RoundedQuotient : ℕ → ℕ → Result Error U128 → Type 0
RoundedQuotient n d (ok q) = IsWords q × RoundsTo n d (value q)
RoundedQuotient n d (err overflow) = (q : ℕ) × RoundsTo n d q × (2 ^ 63 ≤ q)
RoundedQuotient n d (err _) = ⊥

-- Go's `!r.isZero() && r.cmp(den.sub(r)) >= 0`.
abbrev rounds_up : U128 → U128 → Bool
rounds_up den r = not (is_zero r) && at_least (cmp_u128 r (sub_u128 den r))

-- It says that the remainder is at least half the divisor.
module _ {den : U128} {p : Partial} {n : ℕ} (wd : IsWords den)
    (h : IsQuotient n (value den) p) where
  left_over : IsWords (sub_u128 den p.r) × (value (sub_u128 den p.r) + value p.r ≡ value den)
  left_over =
      let (w, e) = sub-value wd h.remainder_words in (w, omega (arith, value-lt wd, h.below))

  half_test_true : rounds_up den p.r ≡ true → value den ≤ 2 * value p.r
  half_test_true t = ground (arith, left_over.1, at_least-le h.remainder_words left_over.0)

  half_test_false : rounds_up den p.r ≡ false → 2 * value p.r < value den
  half_test_false t =
      ground
        (arith, left_over.1, is_zero-eq p.r, h.below, at_least-lt h.remainder_words left_over.0)

  round-RoundedQuotient : RoundedQuotient n (value den) (round_quotient den p)
  unfolding round_quotient
  round-RoundedQuotient = elim (Bool-cases (rounds_up den p.r)) [
    | inl up ↦
        let one = from_u64-IsWords {v = 1} (omega arith) in
        let sum = round_up n _ _ _ h.exact h.below (half_test_true up) in
        elim (Bool-cases (add_u128 p.q (from_u64 1)).1) [
          | inl fits ↦
              let exact = add-fits h.quotient_words one fits in
              let plus_one = exact ∙ ap (λ (t : ℕ). value p.q + t) (from_u64-value 1) in
              rw (up, fits, plus_one) ((add-value h.quotient_words one).0, sum)
          | inr wraps ↦
              let over = rw from_u64-value at (add-wraps h.quotient_words one wraps) in
              rw (up, wraps) (value p.q + 1, sum, omega (arith, over))
        ]
    | inr down ↦
        rw down (h.quotient_words, round_down n _ _ _ h.exact h.below (half_test_false down))
  ]

-- The exact numerator and divisor of a conversion, and the magnitude of its factor.
abbrev pub numerator : Decimal → Decimal → ℕ → ℕ
numerator d rate target = abs d.unscaled * abs rate.unscaled * 10 ^ target

abbrev pub divisor : Decimal → Decimal → ℤ → ℕ
divisor d rate factor = abs factor * 10 ^ (d.scale + rate.scale)

-- `q` with the sign of a product of values of these signs.
abbrev pub with_sign : Bool → ℕ → ℤ
with_sign negative q = if negative then neg (pos q) else pos q

abbrev pub opposite : Decimal → Decimal → Bool
opposite d rate = xor (is_less (sign d)) (is_less (sign rate))

-- What MulRate returns. A result has the target scale, is a valid decimal, has the magnitude of
-- the exact quotient rounded half away from zero and the sign of the product; ErrOverflow means
-- that the numerator or the divisor passes 128 bits or that the rounded magnitude passes 63.
abbrev pub Converted : Decimal → Decimal → ℤ → ℕ → Result Error Decimal → Type 0
Converted d rate factor t (ok r) =
    IsDecimal r
    × (r.scale ≡ t)
    × ((q : ℕ) × (r.unscaled ≡ with_sign (opposite d rate) q)
        × RoundsTo (numerator d rate t) (divisor d rate factor) q)
Converted d rate factor t (err scale_range) = 9 < t
Converted d rate factor t (err factor_range) = factor ≤ℤ pos 0
Converted d rate factor t (err overflow) =
    (2 ^ 128 ≤ numerator d rate t)
    ⊎ (2 ^ 128 ≤ divisor d rate factor)
    ⊎ ((q : ℕ) × RoundsTo (numerator d rate t) (divisor d rate factor) q × (2 ^ 63 ≤ q))
Converted d rate factor t (err _) = ⊥

-- The last step, from a rounded magnitude.
signed_result_lem :
    (negative : Bool) (q : U128) (t : ℕ)
    → IsWords q
    → (2 ^ 63 ≤ value q) × (signed_result negative q t ≡ err overflow)
      ⊎ (value q < 2 ^ 63)
        × (signed_result negative q t
            ≡ ok (record { unscaled = with_sign negative (value q); scale = t }))
unfolding signed_result
signed_result_lem negative q t w = elim (Bool-cases (not (q.hi == 0) || ltb (2 ^ 63 - 1) q.lo)) [
  | inl wide ↦ inl (ground arith, rw wide)
  | inr narrow ↦
      let low : q.lo < 2 ^ 63 = ground arith in
      let whole : value q ≡ q.lo = ground arith in
      let same_bits : signed q.lo ≡ pos q.lo = ground arith in
      let negated : wrap (neg (pos q.lo)) ≡ neg (pos q.lo) =
        wrap_id (neg (pos q.lo)) (rw abs-neg low) in
      inr (rw whole low, rw (narrow, same_bits, negated, whole))
]

with_sign-fits : (negative : Bool) (q : ℕ) → q < 2 ^ 63 → abs (with_sign negative q) < 2 ^ 63
with_sign-fits true q h = rw abs-neg h
with_sign-fits false q h = h

module _ (d rate : Decimal) (factor : ℤ) (t : ℕ) (ht : t ≤ 9) where
  -- Each step of MulRate behind its checks, given what the step before it returned.
  after_rounding :
      (q : Result Error U128)
      → RoundedQuotient (numerator d rate t) (divisor d rate factor) q
      → Converted d rate factor t (do q' ← q; signed_result (opposite d rate) q' t)
  after_rounding (ok q) (w, rounds) = elim (signed_result_lem (opposite d rate) q t w) [
    | inl (wide, e) ↦ rw e (inr (inr (value q, rounds, wide)))
    | inr (fits, e) ↦ rw e (
      record { fits = with_sign-fits (opposite d rate) (value q) fits; scale_le = ht },
      refl,
      (value q, refl, rounds),
    )
  ]
  after_rounding (err overflow) wide = inr (inr wide)
  after_rounding (err _) h = absurd h

  after_scaling :
      (num den : Option U128)
      → Scaled (numerator d rate t) num
      → Scaled (divisor d rate factor) den
      → 0 < divisor d rate factor
      → Converted d rate factor t (do
        n ← or_overflow num
        m ← or_overflow den
        p ← or_panic (div_mod n m)
        q ← round_quotient m p
        signed_result (opposite d rate) q t)
  after_scaling none den hn hd pos_d = inl hn
  after_scaling (some n) none hn hd pos_d = inr (inl hd)
  after_scaling (some n) (some m) hn hd pos_d = elim (Option-cases (div_mod n m)) [
    | inl e ↦
        let zero_divisor : value m ≡ 0 = rw e at (div_mod-DividesExactly hn.0 hd.0) in
        absurd (omega (arith, hd.1, pos_d))
    | inr (p, e) ↦
        let quotient : IsQuotient (value n) (value m) p =
          rw e at (div_mod-DividesExactly hn.0 hd.0) in
        rw e (
          after_rounding (round_quotient m p)
            (rw (hn.1, hd.1) at (round-RoundedQuotient hd.0 quotient)))
  ]

-- MulRate on valid decimals and any int64 factor, at any target scale: see Converted. In particular
-- the division never panics.
pub mul_rate-Converted :
    (d rate : Decimal) (factor : ℤ) (t : ℕ)
    → IsDecimal d
    → IsDecimal rate
    → factor ≤ℤ max_int64
    → Converted d rate factor t (mul_rate d rate factor t)
unfolding mul_rate
mul_rate-Converted d rate factor t vd vr hf = elim (Bool-cases (ltb 9 t)) [
  | inl high ↦ rw high (ground arith)
  | inr allowed ↦ elim (Bool-cases (leb_ℤ factor (pos 0))) [
    | inl refused ↦ rw (allowed, refused) (ground arith)
    | inr positive ↦
        let word : to_u64 factor ≡ abs factor = ground arith in
        let md = magnitude-eq-abs d.unscaled vd.fits in
        let mr = magnitude-eq-abs rate.unscaled vr.fits in
        let product =
          mul64-IsWords {a = abs d.unscaled} {b = abs rate.unscaled} (omega arith) (omega arith) in
        let num = mul_pow10-Scaled t product in
        let small_factor : abs factor < 2 ^ 64 = ground arith in
        let den = mul_pow10-Scaled (d.scale + rate.scale) (from_u64-IsWords small_factor) in
        let some_divisor : 0 < divisor d rate factor =
          let power = one-le-pow (d.scale + rate.scale) 10 (omega arith) in
          let some_factor : 0 < abs factor = ground arith in grind arith in
        rw (allowed, positive, md, mr, word)
          (after_scaling d rate factor t (ground arith) _ _ (rw mul64-value at num)
            (rw from_u64-value at den) some_divisor)
  ]
]
