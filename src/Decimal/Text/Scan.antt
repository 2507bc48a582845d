-- ===== src/Decimal/Text/Scan.antt =====
-- The digit loops of ParseDecimal read the number that the digits spell, or overflow.
use integrations_challenge.Prelude.{
  ℕ, suc, ◌+◌, ◌-◌, ◌*◌, ◌≤◌, ◌≡◌, true, false, [], ◌∷◌, ◌++◌, Bytes, length, All, arith, ok,
}
use integrations_challenge.Decimal.Text.{is_digit, limit, scan}

-- The number that digits spell behind `n`, with no bound.
abbrev pub spelled : ℕ → Bytes → ℕ
spelled n [] = n
spelled n (c ∷ s) = spelled (n * 10 + (c - b'0')) s

abbrev pub IsDigits : Bytes → Type 0
IsDigits = All (λ c. is_digit c ≡ true)

-- The text does not go on with a digit.
abbrev pub Ends : Bytes → Type 0
Ends [] = Unit
Ends (c ∷ s) = is_digit c ≡ false

pub le-spelled : (s : Bytes) (n : ℕ) → n ≤ spelled n s
le-spelled [] n = omega arith
le-spelled (c ∷ s) n = omega (arith, le-spelled s (n * 10 + (c - b'0')))

pub scan-digits :
    (s rest : Bytes) (n count : ℕ)
    → IsDigits s
    → Ends rest
    → spelled n s ≤ limit
    → scan (s ++ rest) n count ≡ ok (spelled n s, count + length s, rest)
unfolding scan
scan-digits [] [] n count hs he h = ground arith
scan-digits [] (c ∷ rest) n count hs he h = ground arith
scan-digits (c ∷ s) rest n count hs he h =
    let m = n * 10 + (c - b'0') in
    ground (arith, le-spelled s m, scan-digits s rest m (suc count) hs.1 he h)
