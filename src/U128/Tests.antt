-- ===== src/U128/Tests.antt =====
-- u128 at concrete values, and the theorems about it applied there.
use integrations_challenge.Prelude.{◌≡◌, refl, ◌*◌, ◌^◌, none, some, arith}
use integrations_challenge.U128.{
  U128, IsWords, value, nil, div_mod, mul_pow10, div_rest, long_div, div_step, shift_in, set_bit,
  bit, sub, cmp, is_zero, mul_ten, add, mul64,
}
use integrations_challenge.U128.Arith.{Scaled, mul_pow10-Scaled}
use integrations_challenge.U128.DivMod.{DividesExactly, div_mod-DividesExactly}

-- 7 * 2^64 + 5 and 3: the quotient needs both halves, so the loop runs.
abbrev wide : U128
wide = record { hi = 7; lo = 5 }

abbrev three : U128
three = record { hi = 0; lo = 3 }

wide-IsWords : IsWords wide
wide-IsWords = omega arith

three-IsWords : IsWords three
three-IsWords = omega arith

long_division :
    div_mod wide three
    ≡ some
        (record { q = record { hi = 2; lo = 6148914691236517207 }; r = record { hi = 0; lo = 0 } })
unfolding div_mod div_rest long_div div_step shift_in set_bit bit sub cmp is_zero
long_division = refl

zero_divisor : div_mod wide nil ≡ none
unfolding div_mod is_zero
zero_divisor = refl

div_mod-DividesExactly_example : DividesExactly (value wide) (value three) (div_mod wide three)
div_mod-DividesExactly_example = div_mod-DividesExactly wide-IsWords three-IsWords

too_large : mul_pow10 wide 21 ≡ none
unfolding mul_pow10 mul_ten add mul64
too_large = refl

mul_pow10-Scaled_example : Scaled (value wide * 10 ^ 4) (mul_pow10 wide 4)
mul_pow10-Scaled_example = mul_pow10-Scaled 4 wide-IsWords
