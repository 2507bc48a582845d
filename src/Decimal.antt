-- ===== src/Decimal.antt =====
-- internal/model/decimal.go: exact fixed-point decimals, unscaled * 10^-scale, over int64.
-- The text form is in Decimal/Text.
pub mod Rescale
pub mod Sums
pub mod Compare
pub mod MulRate
pub mod Text
mod Tests
use mathlib.Core.Bool.{xor}
use integrations_challenge.Prelude.{
  ℕ, zero, suc, ◌+◌, ◌-◌, ◌*◌, ◌/◌, ◌%◌, ◌^◌, ◌<◌, ◌≤◌, Bool, true, false, not, ◌&&◌, ◌||◌, Option,
  none, some, ltb, leb, ◌==◌, if◌then◌else◌, Result, ok, err, ◌>>=◌, ◌>>◌, fail_if,
}
use integrations_challenge.Prelude.Int.{
  ℤ, pos, negsuc, abs, neg, ◌+ℤ◌, ◌-ℤ◌, ◌*ℕ◌, ◌==ℤ◌, ltb_ℤ, leb_ℤ, wrap, signed, to_u64, quot, rem,
  min_int64,
}
use integrations_challenge.U128.{
  U128, Partial, Sign, less, same, more, at_least, nil, from_u64, mul64, mul_pow10, is_zero,
  div_mod, cmp as cmp_u128, add as add_u128, sub as sub_u128,
}

-- The sentinel errors of the package, and the panic of a division by zero.
pub data Error : Type 0 where
  decimal_syntax scale_range inexact overflow factor_range not_string : Error
  currency_unknown currency_mismatch date_format timestamp_format panicked : Error

pub record Decimal : Type 0 where
  pub unscaled : ℤ
  pub scale : ℕ

-- The invariant that the type documents: an unscaled value in [-(2^63-1), 2^63-1], and at most
-- nine fraction digits.
pub record IsDecimal (d : Decimal) : Type 0 where
  pub fits : abs d.unscaled < 2 ^ 63
  pub scale_le : d.scale ≤ 9

abbrev pub max_scale : ℕ
max_scale = 9

-- The table 10^0 … 10^18. A valid decimal and a checked target scale index it by at most 9.
abbrev pub pow10 : ℕ → ℕ
pow10 n = 10 ^ n

unfoldable pub new_decimal : ℤ → ℕ → Result Error Decimal
new_decimal unscaled scale = do
  fail_if (ltb max_scale scale) scale_range
  fail_if (unscaled ==ℤ min_int64) overflow
  ok (record { unscaled = unscaled; scale = scale })

-- FromMinor
unfoldable pub from_minor : ℤ → ℕ → Result Error Decimal
unfolding new_decimal
from_minor minor scale = new_decimal minor scale

unfoldable pub sign : Decimal → Sign
sign d = if ltb_ℤ d.unscaled (pos 0) then less else if ltb_ℤ (pos 0) d.unscaled then more else same

-- Neg, with the negation of an int64.
unfoldable pub negate : Decimal → Decimal
negate d = record d { unscaled = wrap (neg d.unscaled) }

-- Abs
unfoldable pub absolute : Decimal → Decimal
unfolding negate
absolute d = if ltb_ℤ d.unscaled (pos 0) then negate d else d

-- The three branches of Rescale behind its check of the target scale.
unfoldable pub widen : Decimal → ℕ → Result Error Decimal
widen d scale =
    let f = pow10 (scale - d.scale) in
    let v = wrap (d.unscaled *ℕ f) in
    do
      fail_if (not (d.unscaled ==ℤ pos 0) && (not (quot v f ==ℤ d.unscaled) || (v ==ℤ min_int64)))
          overflow
      ok (record { unscaled = v; scale = scale })

unfoldable pub narrow : Decimal → ℕ → Result Error Decimal
narrow d scale =
    let f = pow10 (d.scale - scale) in
    do
      fail_if (not (rem d.unscaled f ==ℤ pos 0)) inexact
      ok (record { unscaled = quot d.unscaled f; scale = scale })

unfoldable pub rescale : Decimal → ℕ → Result Error Decimal
rescale d scale =
    if ltb max_scale scale
    then err scale_range
    else if scale == d.scale
    then ok d
    else if ltb d.scale scale
    then widen d scale
    else narrow d scale

-- The larger of the two scales, as align and Cmp compute it.
abbrev pub common_scale : Decimal → Decimal → ℕ
common_scale d o = if ltb d.scale o.scale then o.scale else d.scale

unfoldable pub align : Decimal → Decimal → Result Error (ℤ × ℤ × ℕ)
align d o = do
  let scale = common_scale d o
  da ← rescale d scale
  ob ← rescale o scale
  ok (da.unscaled, ob.unscaled, scale)

-- The overflow tests of Add and Sub on the wrapped result.
abbrev pub add_overflows : ℤ → ℤ → ℤ → Bool
add_overflows a b sum =
    (ltb_ℤ (pos 0) a && ltb_ℤ (pos 0) b && leb_ℤ sum (pos 0))
    || (ltb_ℤ a (pos 0) && ltb_ℤ b (pos 0) && leb_ℤ (pos 0) sum)
    || (sum ==ℤ min_int64)

abbrev pub sub_overflows : ℤ → ℤ → ℤ → Bool
sub_overflows a b diff =
    (ltb_ℤ b (pos 0) && ltb_ℤ diff a) || (ltb_ℤ (pos 0) b && ltb_ℤ a diff) || (diff ==ℤ min_int64)

-- Add and Sub behind align.
unfoldable pub add_aligned : ℤ → ℤ → ℕ → Result Error Decimal
unfolding ◌+ℤ◌
add_aligned a b scale =
    let sum = wrap (a +ℤ b) in
    if add_overflows a b sum then err overflow else ok (record { unscaled = sum; scale = scale })

unfoldable pub sub_aligned : ℤ → ℤ → ℕ → Result Error Decimal
unfolding ◌-ℤ◌
sub_aligned a b scale =
    let diff = wrap (a -ℤ b) in
    if sub_overflows a b diff then err overflow else ok (record { unscaled = diff; scale = scale })

unfoldable pub add : Decimal → Decimal → Result Error Decimal
add d o = do (a, b, scale) ← align d o; add_aligned a b scale

unfoldable pub sub : Decimal → Decimal → Result Error Decimal
sub d o = do (a, b, scale) ← align d o; sub_aligned a b scale

-- |v| as a uint64
unfoldable pub magnitude : ℤ → ℕ
magnitude v = if ltb_ℤ v (pos 0) then to_u64 (wrap (neg v)) else to_u64 v

abbrev pub flip : Sign → Sign
flip less = more
flip same = same
flip more = less

-- The sign that Cmp turns round for two negative values.
abbrev pub oriented : Sign → Sign → Sign
oriented less c = flip c
oriented same c = same
oriented more c = c

abbrev pub same_sign : Sign → Sign → Bool
same_sign less less = true
same_sign same same = true
same_sign more more = true
same_sign _ _ = false

-- `sd < so` on the signs -1, 0 and 1.
abbrev pub sign_lt : Sign → Sign → Bool
sign_lt less same = true
sign_lt less more = true
sign_lt same more = true
sign_lt _ _ = false

-- The value, or u128{} where Go ignores `ok`.
abbrev pub or_nil : Option U128 → U128
or_nil none = nil
or_nil (some a) = a

unfoldable pub cmp : Decimal → Decimal → Sign
cmp d o =
    let scale = common_scale d o in
    let a = or_nil (mul_pow10 (from_u64 (magnitude d.unscaled)) (scale - d.scale)) in
    let b = or_nil (mul_pow10 (from_u64 (magnitude o.unscaled)) (scale - o.scale)) in
    if not (same_sign (sign d) (sign o))
    then if sign_lt (sign d) (sign o) then less else more
    else oriented (sign d) (cmp_u128 a b)

-- Equal
unfoldable pub equal : Decimal → Decimal → Bool
unfolding cmp
equal d o = elim (cmp d o) [ same ↦ true | _ ↦ false ]

-- EqualStrict
unfoldable pub equal_strict : Decimal → Decimal → Bool
equal_strict d o = (d.unscaled ==ℤ o.unscaled) && (d.scale == o.scale)

-- Half away from zero: round up when the remainder is at least half the divisor.
unfoldable pub round_quotient : U128 → Partial → Result Error U128
round_quotient den p =
    let (up, fits) = add_u128 p.q (from_u64 1) in
    if not (is_zero p.r) && at_least (cmp_u128 p.r (sub_u128 den p.r))
    then if fits then ok up else err overflow
    else ok p.q

-- The last part of MulRate: the range check, the conversion to int64 and the sign.
unfoldable pub signed_result : Bool → U128 → ℕ → Result Error Decimal
signed_result negative q target_scale =
    let v = signed q.lo in
    do
      fail_if (not (q.hi == 0) || ltb (2 ^ 63 - 1) q.lo) overflow
      ok (record { unscaled = if negative then wrap (neg v) else v; scale = target_scale })

abbrev pub is_less : Sign → Bool
is_less less = true
is_less _ = false

-- A 128-bit value, or ErrOverflow.
abbrev pub or_overflow : {A : Type 0} → Option A → Result Error A
or_overflow none = err overflow
or_overflow (some a) = ok a

-- The quotient, or divMod's panic.
abbrev pub or_panic : {A : Type 0} → Option A → Result Error A
or_panic none = err panicked
or_panic (some a) = ok a

-- MulRate
unfoldable pub mul_rate : Decimal → Decimal → ℤ → ℕ → Result Error Decimal
mul_rate d rate factor target_scale = do
  fail_if (ltb max_scale target_scale) scale_range
  fail_if (leb_ℤ factor (pos 0)) factor_range
  let product = mul64 (magnitude d.unscaled) (magnitude rate.unscaled)
  num ← or_overflow (mul_pow10 product target_scale)
  den ← or_overflow (mul_pow10 (from_u64 (to_u64 factor)) (d.scale + rate.scale))
  p ← or_panic (div_mod num den)
  q ← round_quotient den p
  signed_result (xor (is_less (sign d)) (is_less (sign rate))) q target_scale

unfoldable pub minor_units : Decimal → ℕ → Result Error ℤ
minor_units d currency_scale = do r ← rescale d currency_scale; ok r.unscaled
