-- ===== src/Decimal/Rescale.antt =====
-- Rescale: which value, and which error, for every decimal and every target scale.
use native.Mathlib.Nat.{mul-div_cancel, div-mul-le_self, one-le-pow, div-le_self}
use integrations_challenge.Prelude.{
  ℕ, zero, suc, ◌+◌, ◌-◌, ◌*◌, ◌/◌, ◌%◌, ◌^◌, ◌<◌, ◌≤◌, ◌≡◌, ◌≢◌, ◌⊎◌, refl, sym, ap, ◌∙◌, inl, inr,
  Bool, true, false, not, ◌&&◌, ◌||◌, arith, Bool-cases, ltb, ◌==◌, Result, ok, err,
}
use integrations_challenge.Prelude.Pow.{pow-add}
use integrations_challenge.Prelude.Int.{
  ℤ, pos, negsuc, abs, neg, ◌*ℕ◌, ◌==ℤ◌, wrap, quot, rem, min_int64, wrap_id, wrap-abs, ==ℤ_eq,
  ==ℤ_refl, min-ne, *ℕ_assoc, abs-*ℕ, rem-zero, rem-ne_zero, abs-quot, quot_exact,
}
use integrations_challenge.Decimal.{
  Decimal, IsDecimal, Error, scale_range, overflow, inexact, widen, narrow, rescale,
}

-- The value of a decimal in units of 10^-9: at most nine fraction digits make it an integer.
abbrev pub nano : Decimal → ℤ
nano d = d.unscaled *ℕ 10 ^ (9 - d.scale)

-- What Rescale returns. A result has the target scale and the same value; ErrOverflow means that
-- the wider unscaled value needs more than 63 bits, ErrInexact that a dropped digit is not zero.
abbrev pub Rescaled : Decimal → ℕ → Result Error Decimal → Type 0
Rescaled d s (ok r) = IsDecimal r × (r.scale ≡ s) × (nano r ≡ nano d)
Rescaled d s (err scale_range) = 9 < s
Rescaled d s (err overflow) =
    (s ≤ 9) × (d.scale < s) × (2 ^ 63 ≤ abs d.unscaled * 10 ^ (s - d.scale))
Rescaled d s (err inexact) = (s < d.scale) × (abs d.unscaled % 10 ^ (d.scale - s) ≢ 0)
Rescaled d s (err _) = ⊥

le_total : (a b : ℕ) → (a ≤ b) ⊎ (b < a)
le_total a b = omega arith

-- The overflow test of the widening branch, on an exact product and its wrapped value.
abbrev widen_test : ℤ → ℕ → Bool
widen_test u f =
    let v = wrap (u *ℕ f) in not (u ==ℤ pos 0) && (not (quot v f ==ℤ u) || (v ==ℤ min_int64))

and_false : (b : Bool) → (b && false) ≡ false
and_false true = refl
and_false false = refl

quot-neg : (x f : ℕ) → 0 < x → quot (neg (pos x)) f ≡ neg (pos (x / f))
quot-neg zero f h = elim h [ ]
quot-neg (suc x) f h = refl

module _ (f : ℕ) (h : 0 < f) where
  quot-abs : (u v : ℤ) → (quot v f ==ℤ u) ≡ true → abs u * f ≤ abs v
  quot-abs (pos n) (pos w) e = ground (arith, div-mul-le_self w f)
  quot-abs (pos n) (negsuc w) e = ground (arith, div-mul-le_self (suc w) f)
  quot-abs (negsuc n) (pos w) e = ground (arith, div-mul-le_self w f)
  quot-abs (negsuc n) (negsuc w) e = ground (arith, div-mul-le_self (suc w) f)

  quot_product : (u : ℤ) → quot (u *ℕ f) f ≡ u
  quot_product (pos n) = ground (arith, mul-div_cancel n h)
  quot_product (negsuc n) =
      let some_product : 0 < suc n * f = grind arith in
      rw (quot-neg (suc n * f) f some_product, mul-div_cancel (suc n) h)

  -- A product of more than 63 bits is caught, whatever it wraps to.
  widen_overflows : (u : ℤ) → 2 ^ 63 ≤ abs u * f → widen_test u f ≡ true
  widen_overflows u big = elim (Bool-cases (widen_test u f)) [
    | inl caught ↦ caught
    | inr missed ↦ elim (Bool-cases (u ==ℤ pos 0)) [
      | inl nothing ↦ absurd (none_left (==ℤ_eq u (pos 0) nothing))
      | inr some_value ↦
          let v = wrap (u *ℕ f) in
          let same_quot : (quot v f ==ℤ u) ≡ true = ground arith in
          let not_least : (v ==ℤ min_int64) ≡ false = ground arith in
          absurd (omega (arith, quot-abs u v same_quot, wrap-abs (u *ℕ f) not_least))
    ]
  ]
    where
      none_left : u ≡ pos 0 → ⊥
      none_left e = let none_at_all : abs u ≡ 0 = ap abs e in grind arith

  -- A product that fits is computed as it is.
  widen_fits : (u : ℤ) → abs u * f < 2 ^ 63 → (widen_test u f ≡ false) × (wrap (u *ℕ f) ≡ u *ℕ f)
  widen_fits u small =
      let exact = wrap_id (u *ℕ f) (rw abs-*ℕ small) in
      let not_least = min-ne (u *ℕ f) (rw abs-*ℕ small) in
      (rw (exact, quot_product u, ==ℤ_refl u, not_least) (and_false (not (u ==ℤ pos 0))), exact)

-- Scaling by k digits and then by l digits is scaling by k + l digits.
nano_widen : (u : ℤ) (k l m : ℕ) → k + l ≡ m → u *ℕ 10 ^ k *ℕ 10 ^ l ≡ u *ℕ 10 ^ m
nano_widen u k l m e = *ℕ_assoc u (10 ^ k) (10 ^ l) ∙ rw (← pow-add 10 k l, e)

ten_pos : (n : ℕ) → 0 < 10 ^ n
ten_pos n = one-le-pow n 10 (omega arith)

widen-Rescaled :
    (d : Decimal) (s : ℕ) → IsDecimal d → d.scale < s → s ≤ 9 → Rescaled d s (widen d s)
unfolding widen
widen-Rescaled d s v h hs =
    let k = s - d.scale in
    let p = ten_pos k in
    elim (le_total (2 ^ 63) (abs d.unscaled * 10 ^ k)) [
      | inl big ↦ rw (widen_overflows (10 ^ k) p d.unscaled big) (hs, h, big)
      | inr small ↦
          let (passed, exact) = widen_fits (10 ^ k) p d.unscaled small in
          rw (passed, exact)
            (
              record { fits = rw abs-*ℕ small; scale_le = hs },
              refl,
              nano_widen d.unscaled k (9 - s) (9 - d.scale) (omega arith),
            )
    ]

narrow-Rescaled : (d : Decimal) (s : ℕ) → IsDecimal d → s < d.scale → Rescaled d s (narrow d s)
unfolding narrow
narrow-Rescaled d s v h =
    let f = 10 ^ (d.scale - s) in
    elim (Bool-cases (rem d.unscaled f ==ℤ pos 0)) [
      | inl exact ↦
          let whole = quot_exact d.unscaled f (rem-zero d.unscaled f exact) in
          let split =
            nano_widen (quot d.unscaled f) (d.scale - s) (9 - d.scale) (9 - s) (omega arith) in
          rw exact (
            record {
              fits = rw abs-quot (omega (arith, div-le_self (abs d.unscaled) f));
              scale_le = omega arith;
            },
            refl,
            sym split ∙ ap (λ (t : ℤ). t *ℕ 10 ^ (9 - d.scale)) whole,
          )
      | inr left ↦ rw left (h, rem-ne_zero d.unscaled f left)
    ]

-- Rescale is exact or says why not: the result has the target scale and the same value, ErrScaleRange
-- means a target above nine, ErrOverflow a product of more than 63 bits, ErrInexact a dropped
-- digit that is not zero. No other error is returned.
pub rescale-Rescaled : (d : Decimal) (s : ℕ) → IsDecimal d → Rescaled d s (rescale d s)
unfolding rescale
rescale-Rescaled d s v = elim (Bool-cases (ltb 9 s)) [
  | inl high ↦ rw high (ground arith)
  | inr allowed ↦ elim (Bool-cases (s == d.scale)) [
    | inl same ↦ rw (allowed, same) (v, ground arith, refl)
    | inr other ↦ elim (Bool-cases (ltb d.scale s)) [
      | inl up ↦ rw (allowed, other, up) (widen-Rescaled d s v (ground arith) (ground arith))
      | inr down ↦ rw (allowed, other, down) (narrow-Rescaled d s v (ground arith))
    ]
  ]
]
