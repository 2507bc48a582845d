-- ===== src/U128/DivMod.antt =====
-- divMod is the exact division of 128-bit numbers, on each of its four paths.
use native.Mathlib.Nat.{
  pow-suc, div-div-eq-div-mul, div-add-mod', mod-lt, pow-zero, div-lt_iff_lt-mul,
}
use integrations_challenge.Prelude.{
  ℕ, zero, suc, ◌+◌, ◌*◌, ◌/◌, ◌%◌, ◌^◌, ◌≤◌, ◌<◌, ◌≡◌, ap, inl, inr, true, false, Option, none,
  some, arith, Bool-cases, ◌||◌, ◌&&◌, ◌==◌, ltb,
}
use integrations_challenge.U128.{
  U128, IsWords, value, Partial, cmp, at_least, bit, shift_in, sub, div_step, long_div, div_rest,
  div_mod, is_zero, from_u64, nil,
}
use integrations_challenge.U128.Arith.{
  at_least-le, at_least-lt, sub-value, is_zero-eq, is_zero-pos, from_u64-value, from_u64-IsWords,
}
use integrations_challenge.U128.Bits.{bit-value, shift_in-value, set_bit-value}

-- The loop invariant once the bits from `i` on are done: the quotient is m * 2^i, and m and the
-- remainder are the quotient and the remainder of the leading bits of the dividend.
pub record Divides (a b : U128) (i : ℕ) (p : Partial) : Type 0 where
  pub m : ℕ
  pub q_words : IsWords p.q
  pub r_words : IsWords p.r
  pub shifted : value p.q ≡ m * 2 ^ i
  pub leading : value a / 2 ^ i ≡ m * value b + value p.r
  pub below : value p.r < value b

module _ {a b : U128} (wa : IsWords a) (wb : IsWords b) where
  -- The dividend's leading bits, with one bit more.
  leading_bits : (i : ℕ) → value a / 2 ^ i ≡ value a / 2 ^ suc i * 2 + bit a i
  leading_bits i =
      rw (bit-value a i wa, pow-suc 2 i, ← div-div-eq-div-mul (value a) (2 ^ i) 2) (omega arith)

  bit-lt : (i : ℕ) → bit a i < 2
  bit-lt i = rw (bit-value a i wa) (omega arith)

  -- The remainder with one bit more is at least the divisor exactly when the loop's test says so.
  test_true :
      (r s : U128) (x : ℕ)
      → IsWords r
      → IsWords s
      → x < 2
      → value s ≡ (value r * 2 + x) % 2 ^ 128
      → ((r.hi / 2 ^ 63 == 1) || at_least (cmp s b)) ≡ true
      → value b ≤ value r * 2 + x
  test_true r s x wr ws hx e t = ground (arith, at_least-le ws wb)

  test_false :
      (r s : U128) (x : ℕ)
      → IsWords r
      → IsWords s
      → x < 2
      → value s ≡ (value r * 2 + x) % 2 ^ 128
      → ((r.hi / 2 ^ 63 == 1) || at_least (cmp s b)) ≡ false
      → (value r * 2 + x < value b) × (value s ≡ value r * 2 + x)
  test_false r s x wr ws hx e t = ground (arith, at_least-lt ws wb)

  -- One round of the loop keeps the invariant.
  div_step-Divides :
      (i : ℕ) (p : Partial) → i < 128 → Divides a b (suc i) p → Divides a b i (div_step a b i p)
  unfolding div_step
  div_step-Divides i p h d =
      let x = bit a i in
      let s = shift_in p.r x in
      let hx = bit-lt i in
      let (s_words, s_value) = shift_in-value d.r_words hx in
      let lead = leading_bits i in
      let test = (p.r.hi / 2 ^ 63 == 1) || at_least (cmp s b) in
      elim (Bool-cases test) [
        | inl yes_case ↦
            let le = test_true p.r s x d.r_words s_words hx s_value yes_case in
            let (left_words, left_value) = sub-value s_words wb in
            let left : value (sub s b) + value b ≡ value p.r * 2 + x = omega arith in
            let (q_words', q_value) = set_bit-value d.m d.q_words h d.shifted in
            rw yes_case (record {
              m = d.m * 2 + 1;
              q_words = q_words';
              r_words = left_words;
              shifted = omega (arith, ap (λ (t : ℕ). d.m * t) (pow-suc 2 i));
              leading = omega arith;
              below = omega arith;
            })
        | inr no_case ↦
            let (lt, exact) = test_false p.r s x d.r_words s_words hx s_value no_case in
            rw no_case (record {
              m = d.m * 2;
              q_words = d.q_words;
              r_words = s_words;
              shifted = omega (arith, ap (λ (t : ℕ). d.m * t) (pow-suc 2 i));
              leading = omega arith;
              below = omega arith;
            })
      ]

  long_div-Divides :
      (n : ℕ) (p : Partial) → n ≤ 128 → Divides a b n p → Divides a b 0 (long_div a b n p)
  unfolding long_div
  long_div-Divides zero p h d = d
  long_div-Divides (suc n) p h d =
      long_div-Divides n (div_step a b n p) (omega arith) (div_step-Divides n p (omega arith) d)

  start : 0 < value b → Divides a b 128 (record { q = nil; r = nil })
  start h = record {
    m = 0;
    q_words = omega arith;
    r_words = omega arith;
    shifted = omega arith;
    leading = omega (arith, wa);
    below = h;
  }

-- The specification of a division: a number below the divisor is left.
pub record IsQuotient (x y : ℕ) (p : Partial) : Type 0 where
  pub quotient_words : IsWords p.q
  pub remainder_words : IsWords p.r
  pub exact : x ≡ value p.q * y + value p.r
  pub below : value p.r < y

-- What divMod returns: the panic exactly for a zero divisor, otherwise the division.
abbrev pub DividesExactly : ℕ → ℕ → Option Partial → Type 0
DividesExactly x y none = y ≡ 0
DividesExactly x y (some p) = IsQuotient x y p

-- Both quotients by one word have this form.
div_words-IsQuotient :
    (x y : ℕ)
    → 0 < y
    → y < 2 ^ 64
    → x < y * 2 ^ 64
    → IsQuotient x y (record { q = from_u64 (x / y); r = from_u64 (x % y) })
div_words-IsQuotient x y h hy hx =
    let left = mod-lt x h in
    let quo : x / y < 2 ^ 64 = (div-lt_iff_lt-mul h).1 (omega arith) in
    record {
      quotient_words = from_u64-IsWords quo;
      remainder_words = from_u64-IsWords (omega arith);
      exact = rw (from_u64-value (x / y), from_u64-value (x % y)) (omega (arith, div-add-mod' x y));
      below = rw from_u64-value left;
    }

module _ {a b : U128} (wa : IsWords a) (wb : IsWords b) (pos : 0 < value b) where
  loop-IsQuotient : IsQuotient (value a) (value b) (long_div a b 128 (record { q = nil; r = nil }))
  loop-IsQuotient =
      let d = long_div-Divides wa wb 128 _ (omega arith) (start wa wb pos) in
      let whole : d.m * 2 ^ 0 ≡ d.m = rw pow-zero (omega arith) in
      let all_bits : value a / 2 ^ 0 ≡ value a = rw pow-zero (omega arith) in
      record {
        quotient_words = d.q_words;
        remainder_words = d.r_words;
        exact = rw d.shifted (rw whole (rw all_bits at d.leading));
        below = d.below;
      }

  rest-IsQuotient : IsQuotient (value a) (value b) (div_rest a b)
  unfolding div_rest
  rest-IsQuotient = elim (Bool-cases (b.hi == 0 && a.hi == 0)) [
    | inl one_word ↦
        let va : value a ≡ a.lo = ground arith in
        let vb : value b ≡ b.lo = ground arith in
        let here : 0 < b.lo = rw vb at pos in
        let q = div_words-IsQuotient a.lo b.lo here wb.lo_word (ground arith) in
        rw (one_word, va, vb) q
    | inr wider ↦ elim (Bool-cases (b.hi == 0 && ltb a.hi b.lo)) [
      | inl one_divisor ↦
          let vb : value b ≡ b.lo = ground arith in
          let here : 0 < b.lo = rw vb at pos in
          let q = div_words-IsQuotient (value a) b.lo here wb.lo_word (ground arith) in
          rw (wider, one_divisor, vb) q
      | inr long ↦ rw (wider, long) loop-IsQuotient
    ]
  ]

-- divMod panics exactly on a zero divisor; otherwise its quotient and remainder, both without
-- overflow, are those of the exact division, on every path.
pub div_mod-DividesExactly :
    {a b : U128} → IsWords a → IsWords b → DividesExactly (value a) (value b) (div_mod a b)
unfolding div_mod
div_mod-DividesExactly {a} {b} wa wb = elim (Bool-cases (is_zero b)) [
  | inl zero_divisor ↦ rw zero_divisor (is_zero-eq b zero_divisor)
  | inr divisor ↦ elim (Bool-cases (at_least (cmp a b))) [
    | inl ge ↦ rw (divisor, ge) (rest-IsQuotient wa wb (is_zero-pos b divisor))
    | inr lt ↦
        rw (divisor, lt)
          (record {
            quotient_words = omega arith;
            remainder_words = wa;
            exact = omega arith;
            below = at_least-lt wa wb lt;
          })
  ]
]
