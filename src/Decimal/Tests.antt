-- ===== src/Decimal/Tests.antt =====
-- Decimals at concrete values, and the theorems about them applied there.
use mathlib.Core.Bool.{xor}
use integrations_challenge.Prelude.{◌≡◌, refl, codes, ok, err, arith}
use integrations_challenge.Prelude.Int.{pos, negsuc, ◌+ℤ◌, ◌-ℤ◌}
use integrations_challenge.U128.{
  div_mod, mul_pow10, div_rest, is_zero, from_u64, mul_ten, mul64, less, sub as sub_u128,
  cmp as cmp_u128, add as add_u128,
}
use integrations_challenge.Decimal.{
  Decimal, IsDecimal, inexact, decimal_syntax, rescale, widen, narrow, add, sub, align, sub_aligned,
  cmp, sign, magnitude, mul_rate, round_quotient, signed_result,
}
use integrations_challenge.Decimal.Rescale.{Rescaled, nano, rescale-Rescaled}
use integrations_challenge.Decimal.Sums.{Combined, add-Combined, sub-Combined}
use integrations_challenge.Decimal.Compare.{OrderedZ, cmp-OrderedZ}
use integrations_challenge.Decimal.MulRate.{Converted, mul_rate-Converted}
use integrations_challenge.Decimal.Text.{
  parse, print, scan, scan_fraction, format_uint, write_digits, place_point,
}
use integrations_challenge.Decimal.Text.RoundTrip.{parse-print}

-- GBP 100.00, and the rate 1.082250 that the source's comment on MulRate names.
abbrev hundred : Decimal
hundred = record { unscaled = pos 10000; scale = 2 }

abbrev rate : Decimal
rate = record { unscaled = pos 1082250; scale = 6 }

-- -0.05
abbrev minus : Decimal
minus = record { unscaled = negsuc 4; scale = 2 }

hundred-IsDecimal : IsDecimal hundred
hundred-IsDecimal = omega arith

rate-IsDecimal : IsDecimal rate
rate-IsDecimal = omega arith

minus-IsDecimal : IsDecimal minus
minus-IsDecimal = omega arith

half_up : mul_rate hundred rate (pos 1) 2 ≡ ok (record { unscaled = pos 10823; scale = 2 })
unfolding mul_rate mul64 mul_pow10 mul_ten add_u128 sub_u128 cmp_u128 is_zero from_u64 div_mod
    div_rest magnitude sign round_quotient signed_result xor
half_up = refl

mul_rate-Converted_example : Converted minus rate (pos 100) 2 (mul_rate minus rate (pos 100) 2)
mul_rate-Converted_example =
    mul_rate-Converted minus rate (pos 100) 2 minus-IsDecimal rate-IsDecimal (omega arith)

dropped_digit : rescale rate 4 ≡ err inexact
unfolding rescale narrow
dropped_digit = refl

rescale-Rescaled_example : Rescaled rate 5 (rescale rate 5)
rescale-Rescaled_example = rescale-Rescaled rate 5 rate-IsDecimal

add-Combined_example : Combined minus rate (nano minus +ℤ nano rate) (add minus rate)
add-Combined_example = add-Combined minus-IsDecimal rate-IsDecimal

sub-Combined_example : Combined minus rate (nano minus -ℤ nano rate) (sub minus rate)
sub-Combined_example = sub-Combined minus-IsDecimal rate-IsDecimal

difference : sub minus rate ≡ ok (record { unscaled = negsuc 1132249; scale = 6 })
unfolding sub align rescale widen sub_aligned ◌-ℤ◌
difference = refl

cmp-OrderedZ_example : OrderedZ (cmp minus rate) (nano minus) (nano rate)
cmp-OrderedZ_example = cmp-OrderedZ minus-IsDecimal rate-IsDecimal

minus_less : cmp minus rate ≡ less
unfolding cmp sign
minus_less = refl

print-minus : print minus ≡ codes "-0.05"
unfolding print place_point format_uint write_digits magnitude
print-minus = refl

missing_fraction : parse (codes "5.") ≡ err decimal_syntax
unfolding parse scan scan_fraction
missing_fraction = refl

parse-print_example : parse (print minus) ≡ ok minus
parse-print_example = parse-print minus minus-IsDecimal
