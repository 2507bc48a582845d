-- ===== src/Decimal/Text/RoundTrip.antt =====
-- ParseDecimal reads back what String writes.
use native.Mathlib.Nat.{pow-suc}
use integrations_challenge.Prelude.{
  ℕ, zero, suc, ◌+◌, ◌-◌, ◌*◌, ◌/◌, ◌%◌, ◌^◌, ◌≤◌, ◌<◌, ◌≡◌, inl, inr, refl, Bool, true, false, [],
  ◌∷◌, ◌++◌, Bytes, length, take, drop, replicate, append-nil, length-append, length-replicate,
  length-take, length-drop, ◌∙◌, arith, ok, Bool-cases, ltb, ◌==◌, if◌then◌else◌,
}
use integrations_challenge.Prelude.Int.{ℤ, pos, negsuc, neg, abs, signed, wrap, ltb_ℤ}
use integrations_challenge.Decimal.{Decimal, IsDecimal}
use integrations_challenge.Decimal.Compare.{magnitude-eq-abs}
use integrations_challenge.Decimal.Text.{
  is_digit, limit, scan_fraction, parse_unsigned, parse, write_digits, format_uint, place_point,
  print,
}
use integrations_challenge.Decimal.Text.Scan.{spelled, le-spelled, IsDigits, scan-digits}

spelled-write :
    (f n : ℕ) (out : Bytes) → n < 10 ^ f → spelled 0 (write_digits f n out) ≡ spelled n out
unfolding write_digits
spelled-write zero n out h = let e : n ≡ 0 = omega arith in rw e
spelled-write (suc f) n out h =
    ground (arith, spelled-write f (n / 10) ((b'0' + n % 10) ∷ out) (omega (arith, pow-suc 10 f)))

write-IsDigits : (f n : ℕ) (out : Bytes) → IsDigits out → IsDigits (write_digits f n out)
unfolding write_digits
write-IsDigits zero n out h = h
write-IsDigits (suc f) n out h = ground (arith, write-IsDigits f (n / 10) ((b'0' + n % 10) ∷ out))

write-length : (f n : ℕ) (out : Bytes) → length out ≤ length (write_digits f n out)
unfolding write_digits
write-length zero n out = omega arith
write-length (suc f) n out = ground (arith, write-length f (n / 10) ((b'0' + n % 10) ∷ out))

-- The literals with a point: integer digits, and fraction digits.
value_of : Bool → ℕ → ℤ
value_of negative n = if negative then wrap (neg (signed n)) else signed n

with_point :
    (negative : Bool) (a b : Bytes)
    → IsDigits a
    → IsDigits b
    → 0 < length a
    → 0 < length b
    → length b ≤ 9
    → spelled (spelled 0 a) b ≤ limit
    → parse_unsigned negative (a ++ b'.' ∷ b)
      ≡ ok (record { unscaled = value_of negative (spelled (spelled 0 a) b); scale = length b })
unfolding parse_unsigned scan_fraction value_of
with_point negative a b ha hb la lb small fits =
    let whole : spelled 0 a ≤ limit = omega (arith, le-spelled b (spelled 0 a)) in
    let first = scan-digits a (b'.' ∷ b) 0 0 ha refl whole in
    let second = rw append-nil at (scan-digits b [] (spelled 0 a) 0 hb tt fits) in
    ground (arith, first, second)

without_point :
    (negative : Bool) (a : Bytes)
    → IsDigits a
    → 0 < length a
    → spelled 0 a ≤ limit
    → parse_unsigned negative a
      ≡ ok (record { unscaled = value_of negative (spelled 0 a); scale = 0 })
unfolding parse_unsigned scan_fraction value_of
without_point negative a ha la fits =
    ground (arith, rw append-nil at (scan-digits a [] 0 0 ha tt fits))

append-IsDigits : (a b : Bytes) → IsDigits a → IsDigits b → IsDigits (a ++ b)
append-IsDigits [] b ha hb = hb
append-IsDigits (c ∷ a) b ha hb = (ha.0, append-IsDigits a b ha.1 hb)

take-IsDigits : (k : ℕ) (a : Bytes) → IsDigits a → IsDigits (take k a)
take-IsDigits zero a h = tt
take-IsDigits (suc k) [] h = tt
take-IsDigits (suc k) (c ∷ a) h = (h.0, take-IsDigits k a h.1)

drop-IsDigits : (k : ℕ) (a : Bytes) → IsDigits a → IsDigits (drop k a)
drop-IsDigits zero a h = h
drop-IsDigits (suc k) [] h = tt
drop-IsDigits (suc k) (c ∷ a) h = drop-IsDigits k a h.1

spelled_split : (k n : ℕ) (a : Bytes) → spelled (spelled n (take k a)) (drop k a) ≡ spelled n a
spelled_split zero n a = refl
spelled_split (suc k) n [] = refl
spelled_split (suc k) n (c ∷ a) = spelled_split k (n * 10 + (c - b'0')) a

zeros-IsDigits : (k : ℕ) → IsDigits (replicate k b'0')
zeros-IsDigits zero = tt
zeros-IsDigits (suc k) = (refl, zeros-IsDigits k)

spelled-zeros : (k : ℕ) (a : Bytes) → spelled 0 (replicate k b'0' ++ a) ≡ spelled 0 a
spelled-zeros zero a = refl
spelled-zeros (suc k) a = spelled-zeros k a

-- The same literals, with their value and their scale named.
point_literal :
    (negative : Bool) (a b : Bytes) (n scale : ℕ)
    → IsDigits a
    → IsDigits b
    → 0 < length a
    → 0 < scale
    → scale ≤ 9
    → n ≤ limit
    → length b ≡ scale
    → spelled (spelled 0 a) b ≡ n
    → parse_unsigned negative (a ++ b'.' ∷ b)
      ≡ ok (record { unscaled = value_of negative n; scale = scale })
point_literal negative a b n scale ha hb la ls small fits es en =
    rw (← es, ← en) (with_point negative a b ha hb la (rw es ls) (rw es small) (rw en fits))

-- The digits of a magnitude.
module _ (n : ℕ) (h : n ≤ limit) where
  format_uint-IsDigits : IsDigits (format_uint n)
  unfolding format_uint
  format_uint-IsDigits = write-IsDigits 20 n [] tt

  format_uint-pos : 0 < length (format_uint n)
  unfolding format_uint write_digits
  format_uint-pos = ground (arith, write-length 19 (n / 10) ((b'0' + n % 10) ∷ []))

  format_uint-spelled : spelled 0 (format_uint n) ≡ n
  unfolding format_uint
  format_uint-spelled = spelled-write 20 n [] (omega arith)

  -- "0." and zeros before the digits.
  padded :
      (negative : Bool) (scale : ℕ)
      → 0 < scale
      → scale ≤ 9
      → 0 < scale + 1 - length (format_uint n)
      → let zeros : Bytes = replicate (scale + 1 - length (format_uint n) - 1) b'0' in
        parse_unsigned negative (b'0' ∷ b'.' ∷ (zeros ++ format_uint n))
        ≡ ok (record { unscaled = value_of negative n; scale = scale })
  padded negative scale ls hs room =
      let ds : Bytes = format_uint n in
      let k : ℕ = scale + 1 - length ds - 1 in
      let zeros : Bytes = replicate k b'0' in
      let some_digits = format_uint-pos in
      let count : length (zeros ++ ds) ≡ scale =
        rw (length-append, length-replicate) (omega (arith, format_uint-pos)) in
      point_literal negative (b'0' ∷ []) (zeros ++ ds) n scale (refl, tt)
        (append-IsDigits zeros ds (zeros-IsDigits k) format_uint-IsDigits) (omega arith) ls hs h
        count (spelled-zeros k ds ∙ format_uint-spelled)

  placed :
      (negative : Bool) (scale : ℕ)
      → scale ≤ 9
      → parse_unsigned negative (place_point (format_uint n) scale)
        ≡ ok (record { unscaled = value_of negative n; scale = scale })
  unfolding place_point
  placed negative scale hs =
      let ds = format_uint n in
      elim (Bool-cases (scale == 0)) [
        | inl whole ↦
            let e : scale ≡ 0 = ground arith in
            rw (whole, e)
              (rw format_uint-spelled at (
                without_point negative ds format_uint-IsDigits format_uint-pos
                  (rw format_uint-spelled h)))
        | inr some_left ↦ elim (Bool-cases (ltb 0 (scale + 1 - length ds))) [
          | inl pad ↦ rw (some_left, pad) (padded negative scale (ground arith) hs (ground arith))
          | inr cut ↦
              let k = length ds - scale in
              let some_digits : 0 < length (take k ds) = rw length-take (ground arith) in
              let count : length (drop k ds) ≡ scale = rw length-drop (ground arith) in
              rw (some_left, cut)
                (point_literal negative (take k ds) (drop k ds) n scale
                  (take-IsDigits k ds format_uint-IsDigits)
                  (drop-IsDigits k ds format_uint-IsDigits) some_digits (ground arith) hs h count
                  (spelled_split k 0 ds ∙ format_uint-spelled))
        ]
      ]

-- A text that begins with a digit has no sign.
StartsWithDigit : Bytes → Type 0
StartsWithDigit [] = ⊥
StartsWithDigit (c ∷ s) = is_digit c ≡ true

parse-digit : (s : Bytes) → StartsWithDigit s → parse s ≡ parse_unsigned false s
unfolding parse StartsWithDigit
parse-digit [] h = absurd h
parse-digit (c ∷ s) h = ground arith

place_point-StartsWithDigit :
    (ds : Bytes) (scale : ℕ) → IsDigits ds → 0 < length ds → StartsWithDigit (place_point ds scale)
unfolding place_point StartsWithDigit
place_point-StartsWithDigit [] scale h l = elim l [ ]
place_point-StartsWithDigit (c ∷ ds) scale h l = elim (Bool-cases (scale == 0)) [
  | inl whole ↦ rw whole h.0
  | inr some_left ↦ elim (Bool-cases (ltb 0 (scale + 1 - suc (length ds)))) [
    | inl pad ↦ rw (some_left, pad)
    | inr cut ↦
        let e : suc (length ds) - scale ≡ suc (length ds - scale) = ground arith in
        rw (some_left, cut, e) h.0
  ]
]

-- The value behind a sign and a magnitude.
value_back :
    (u : ℤ) {negative : Bool}
    → abs u < 2 ^ 63
    → ltb_ℤ u (pos 0) ≡ negative
    → value_of negative (abs u) ≡ u
unfolding value_of
value_back u h e = rw (← e) (value_of_sign u h)
  where
    value_of_sign : (w : ℤ) → abs w < 2 ^ 63 → value_of (ltb_ℤ w (pos 0)) (abs w) ≡ w
    value_of_sign (pos n) h = ground arith
    value_of_sign (negsuc n) h = ground arith

-- Every valid decimal is read back from its print, with its value and its scale.
pub parse-print : (d : Decimal) → IsDecimal d → parse (print d) ≡ ok d
unfolding print parse
parse-print d v =
    let u = d.unscaled in
    let m = magnitude-eq-abs u v.fits in
    let fits : abs u ≤ limit = omega (arith, v.fits) in
    elim (Bool-cases (ltb_ℤ u (pos 0))) [
      | inl below ↦
          rw (below, m, placed (abs u) fits true d.scale v.scale_le, value_back u v.fits below)
      | inr above ↦
          let text = place_point (format_uint (abs u)) d.scale in
          let starts =
            place_point-StartsWithDigit (format_uint (abs u)) d.scale
              (format_uint-IsDigits (abs u) fits) (format_uint-pos (abs u) fits) in
          rw (
            above,
            m,
            parse-digit text starts,
            placed (abs u) fits false d.scale v.scale_le,
            value_back u v.fits above,
          )
    ]
