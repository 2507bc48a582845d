-- ===== src/Decimal/Text.antt =====
-- internal/model/decimal.go: ParseDecimal and String, on the bytes of a literal.
pub mod Scan
pub mod RoundTrip
use integrations_challenge.Prelude.{
  ℕ, zero, suc, ◌+◌, ◌-◌, ◌*◌, ◌/◌, ◌%◌, ◌^◌, Bool, true, false, not, ◌&&◌, List, [], ◌∷◌, ◌++◌,
  Bytes, length, take, drop, replicate, ltb, leb, ◌==◌, if◌then◌else◌, Result, ok, err, ◌>>=◌, ◌>>◌,
  fail_if,
}
use integrations_challenge.Prelude.Int.{ℤ, pos, neg, ltb_ℤ, wrap, signed}
use integrations_challenge.Decimal.{
  Decimal, Error, decimal_syntax, overflow, scale_range, max_scale, magnitude,
}

abbrev pub is_digit : ℕ → Bool
is_digit c = leb b'0' c && leb c b'9'

-- `const limit = uint64(math.MaxInt64)`
abbrev pub limit : ℕ
limit = 2 ^ 63 - 1

-- Both digit loops: the magnitude, the digits counted and the unread bytes.
unfoldable pub scan : Bytes → ℕ → ℕ → Result Error (ℕ × ℕ × Bytes)
scan [] mag count = ok (mag, count, [])
scan (c ∷ s) mag count =
    let d = c - b'0' in
    if not (is_digit c)
    then ok (mag, count, c ∷ s)
    else if ltb ((limit - d) / 10) mag
    then err overflow
    else scan s ((mag * 10 + d) % 2 ^ 64) (suc count)

-- The optional point and fraction: the magnitude, the scale and the unread bytes.
unfoldable pub scan_fraction : ℕ → Bytes → Result Error (ℕ × ℕ × Bytes)
scan_fraction mag [] = ok (mag, 0, [])
scan_fraction mag (c ∷ s) =
    let fraction = do
      (mag', count, rest) ← scan s mag 0
      fail_if (count == 0) decimal_syntax
      fail_if (ltb max_scale count) scale_range
      ok (mag', count, rest)
    in if c == b'.' then fraction else ok (mag, 0, c ∷ s)

abbrev pub is_empty : Bytes → Bool
is_empty [] = true
is_empty (c ∷ s) = false

-- The literal behind its sign.
unfoldable pub parse_unsigned : Bool → Bytes → Result Error Decimal
parse_unsigned negative s = do
  (mag, int_digits, rest) ← scan s 0 0
  fail_if (int_digits == 0) decimal_syntax
  (mag', scale, rest') ← scan_fraction mag rest
  fail_if (not (is_empty rest')) decimal_syntax
  ok (record {
    unscaled = if negative then wrap (neg (signed mag')) else signed mag';
    scale = scale;
  })

-- ParseDecimal
unfoldable pub parse : Bytes → Result Error Decimal
unfolding parse_unsigned
parse [] = err decimal_syntax
parse (c ∷ s) = if c == b'-' then parse_unsigned true s else parse_unsigned false (c ∷ s)

-- strconv.FormatUint: a uint64 has at most 20 digits.
unfoldable pub write_digits : ℕ → ℕ → Bytes → Bytes
write_digits zero n out = out
write_digits (suc fuel) n out =
    let more = write_digits fuel (n / 10) ((b'0' + n % 10) ∷ out) in
    if ltb n 10 then (b'0' + n) ∷ out else more

unfoldable pub format_uint : ℕ → Bytes
format_uint n = write_digits 20 n []

-- The digits of String with the point put in.
unfoldable pub place_point : Bytes → ℕ → Bytes
place_point digits scale =
    if scale == 0
    then digits
    else if ltb 0 (scale + 1 - length digits)
    then b'0' ∷ b'.' ∷ (replicate (scale + 1 - length digits - 1) b'0' ++ digits)
    else take (length digits - scale) digits ++ b'.' ∷ drop (length digits - scale) digits

-- String
unfoldable pub print : Decimal → Bytes
print d =
    let digits = format_uint (magnitude d.unscaled) in
    if ltb_ℤ d.unscaled (pos 0)
    then b'-' ∷ place_point digits d.scale
    else place_point digits d.scale
