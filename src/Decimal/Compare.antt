-- ===== src/Decimal/Compare.antt =====
-- Cmp is the order of the values, at any two scales.
use native.Mathlib.Nat.{mul_assoc, mul-le-mul, pow-le-pow_right, le_of_lt, one-le-pow}
use integrations_challenge.Prelude.{
  ℕ, zero, suc, ◌+◌, ◌-◌, ◌*◌, ◌^◌, ◌<◌, ◌≤◌, ◌≡◌, refl, sym, ap, ◌∙◌, arith, not, if◌then◌else◌,
  Option, none, some,
}
use integrations_challenge.Prelude.Pow.{pow-add}
use integrations_challenge.Prelude.Int.{ℤ, pos, negsuc, abs, neg, ◌*ℕ◌, ◌<ℤ◌, abs-*ℕ}
use integrations_challenge.U128.{
  U128, IsWords, value, Sign, less, same, more, mul_pow10, from_u64, cmp as cmp_u128,
}
use integrations_challenge.U128.Arith.{
  Ordered, Scaled, cmp-Ordered, mul_pow10-Scaled, from_u64-IsWords, from_u64-value,
}
use integrations_challenge.Decimal.{
  Decimal, IsDecimal, common_scale, sign, cmp, magnitude, or_nil, flip, oriented, same_sign,
  sign_lt,
}
use integrations_challenge.Decimal.Rescale.{nano}

pub magnitude-eq-abs : (u : ℤ) → abs u < 2 ^ 63 → magnitude u ≡ abs u
unfolding magnitude
magnitude-eq-abs (pos n) h = ground arith
magnitude-eq-abs (negsuc n) h = ground arith

-- An exact scaling that fits is the value that Go reads off the pair.
or_nil-value :
    (x : ℕ) (r : Option U128)
    → x < 2 ^ 128
    → Scaled x r
    → IsWords (or_nil r) × (value (or_nil r) ≡ x)
or_nil-value x none h s = absurd (omega arith)
or_nil-value x (some c) h s = s

small_power : (k : ℕ) → k ≤ 9 → 10 ^ k ≤ 10 ^ 9
small_power k h = pow-le-pow_right (omega arith) h

-- The aligned magnitude always fits in 128 bits: at most nine digits are added to 63 bits.
aligned :
    (d : Decimal) (k : ℕ)
    → IsDecimal d
    → k ≤ 9
    → let a = or_nil (mul_pow10 (from_u64 (magnitude d.unscaled)) k) in
      IsWords a × (value a ≡ abs d.unscaled * 10 ^ k)
aligned d k v h =
    let m = magnitude-eq-abs d.unscaled v.fits in
    let word = from_u64-IsWords {v = abs d.unscaled} (omega (arith, v.fits)) in
    let scaled = mul_pow10-Scaled k word in
    let room : abs d.unscaled * 10 ^ k < 2 ^ 128 =
      let bound = mul-le-mul (le_of_lt v.fits) (small_power k h) in omega arith in
    rw m (or_nil-value _ _ room (rw from_u64-value at scaled))

-- The sign of an integer, and the order of two integers.
abbrev sgn : ℤ → Sign
sgn (pos zero) = same
sgn (pos (suc n)) = more
sgn (negsuc n) = less

abbrev pub OrderedZ : Sign → ℤ → ℤ → Type 0
OrderedZ less x y = x <ℤ y
OrderedZ same x y = x ≡ y
OrderedZ more x y = y <ℤ x

-- Cmp's decision from the two signs and the order of the magnitudes.
abbrev decide : Sign → Sign → Sign → Sign
decide sd so c =
    if not (same_sign sd so) then if sign_lt sd so then less else more else oriented sd c

both_positive :
    (n m : ℕ) (c : Sign) → Ordered c (suc n) (suc m) → OrderedZ c (pos (suc n)) (pos (suc m))
both_positive n m less h = omega arith
both_positive n m same h = ap pos h
both_positive n m more h = omega arith

both_negative :
    (n m : ℕ) (c : Sign) → Ordered c (suc n) (suc m) → OrderedZ (flip c) (negsuc n) (negsuc m)
both_negative n m less h = omega arith
both_negative n m same h = ap negsuc (omega arith)
both_negative n m more h = omega arith

decide-OrderedZ :
    (x y : ℤ) (c : Sign) → Ordered c (abs x) (abs y) → OrderedZ (decide (sgn x) (sgn y) c) x y
decide-OrderedZ (pos zero) (pos zero) c h = refl
decide-OrderedZ (pos zero) (pos (suc m)) c h = omega arith
decide-OrderedZ (pos zero) (negsuc m) c h = omega arith
decide-OrderedZ (pos (suc n)) (pos zero) c h = omega arith
decide-OrderedZ (pos (suc n)) (pos (suc m)) c h = both_positive n m c h
decide-OrderedZ (pos (suc n)) (negsuc m) c h = omega arith
decide-OrderedZ (negsuc n) (pos zero) c h = omega arith
decide-OrderedZ (negsuc n) (pos (suc m)) c h = omega arith
decide-OrderedZ (negsuc n) (negsuc m) c h = both_negative n m c h

sgn-neg : (x : ℕ) → 0 < x → sgn (neg (pos x)) ≡ less
sgn-neg zero h = elim h [ ]
sgn-neg (suc x) h = refl

sgn-pos : (x : ℕ) → 0 < x → sgn (pos x) ≡ more
sgn-pos zero h = elim h [ ]
sgn-pos (suc x) h = refl

sgn-nano : (u : ℤ) (g : ℕ) → 0 < g → sgn (u *ℕ g) ≡ sgn u
sgn-nano (pos zero) g h = ground arith
sgn-nano (pos (suc n)) g h = sgn-pos (suc n * g) (grind arith)
sgn-nano (negsuc n) g h = sgn-neg (suc n * g) (grind arith)

sign-eq-sgn : (d : Decimal) → sign d ≡ sgn d.unscaled
unfolding sign
sign-eq-sgn d = ground arith

scale_order : (c : Sign) (x y g : ℕ) → 0 < g → Ordered c x y → Ordered c (x * g) (y * g)
scale_order less x y g h o = grind arith
scale_order same x y g h o = rw o
scale_order more x y g h o = grind arith

-- |nano d| through a scale on the way.
abs-nano :
    (d : Decimal) (s : ℕ)
    → d.scale ≤ s
    → s ≤ 9
    → abs d.unscaled * 10 ^ (s - d.scale) * 10 ^ (9 - s) ≡ abs (nano d)
abs-nano d s h hs =
    let e : s - d.scale + (9 - s) ≡ 9 - d.scale = omega arith in
    rw (abs-*ℕ, mul_assoc, ← pow-add 10 (s - d.scale) (9 - s), e)

sign-nano : (d : Decimal) → sign d ≡ sgn (nano d)
sign-nano d =
    sign-eq-sgn d ∙ sym (sgn-nano d.unscaled (10 ^ (9 - d.scale)) (one-le-pow _ 10 (omega arith)))

-- Cmp is exact and blind to the scales: it orders the values, and never overflows.
pub cmp-OrderedZ :
    {d o : Decimal} → IsDecimal d → IsDecimal o → OrderedZ (cmp d o) (nano d) (nano o)
unfolding cmp
cmp-OrderedZ {d} {o} vd vo =
    let s = common_scale d o in
    let small : s ≤ 9 = ground arith in
    let left : d.scale ≤ s = ground arith in
    let right : o.scale ≤ s = ground arith in
    let (wa, va) = aligned d (s - d.scale) vd (omega arith) in
    let (wb, vb) = aligned o (s - o.scale) vo (omega arith) in
    let a = or_nil (mul_pow10 (from_u64 (magnitude d.unscaled)) (s - d.scale)) in
    let b = or_nil (mul_pow10 (from_u64 (magnitude o.unscaled)) (s - o.scale)) in
    let g = 10 ^ (9 - s) in
    let order = rw (va, vb) at (cmp-Ordered wa wb) in
    let scaled = scale_order (cmp_u128 a b) _ _ g (one-le-pow (9 - s) 10 (omega arith)) order in
    let values : Ordered (cmp_u128 a b) (abs (nano d)) (abs (nano o)) =
      rw (← abs-nano d s left small, ← abs-nano o s right small) scaled in
    rw (sign-nano d, sign-nano o) (decide-OrderedZ (nano d) (nano o) (cmp_u128 a b) values)
