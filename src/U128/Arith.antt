-- ===== src/U128/Arith.antt =====
-- What the operations of u128 compute, in terms of the numbers that the halves stand for.
use native.Mathlib.Nat.{mul_assoc, mul_comm, pow-suc, one-le-pow}
use integrations_challenge.Prelude.{
  ℕ, zero, suc, ◌+◌, ◌-◌, ◌*◌, ◌%◌, ◌^◌, ◌≤◌, ◌<◌, ◌≡◌, inl, inr, true, false, Option, none, some,
  arith, Option-cases,
}
use integrations_challenge.U128.{
  U128, IsWords, value, Sign, less, same, more, cmp, at_least, add, sub, mul64, is_zero, mul_ten,
  mul_pow10, from_u64,
}

-- A comparison that agrees with the order of two numbers.
abbrev pub Ordered : Sign → ℕ → ℕ → Type 0
Ordered less x y = x < y
Ordered same x y = x ≡ y
Ordered more x y = y < x

pub value-lt : {a : U128} → IsWords a → value a < 2 ^ 128
value-lt w = omega arith

pub cmp-Ordered : {a b : U128} → IsWords a → IsWords b → Ordered (cmp a b) (value a) (value b)
unfolding cmp
cmp-Ordered wa wb = ground arith

pub at_least-le :
    {a b : U128} → IsWords a → IsWords b → at_least (cmp a b) ≡ true → value b ≤ value a
at_least-le wa wb h = ground (arith, cmp-Ordered wa wb)

pub at_least-lt :
    {a b : U128} → IsWords a → IsWords b → at_least (cmp a b) ≡ false → value a < value b
at_least-lt wa wb h = ground (arith, cmp-Ordered wa wb)

pub is_zero-eq : (a : U128) → is_zero a ≡ true → value a ≡ 0
unfolding is_zero
is_zero-eq a h = ground arith

pub is_zero-pos : (a : U128) → is_zero a ≡ false → 0 < value a
unfolding is_zero
is_zero-pos a h = ground arith

pub from_u64-value : (v : ℕ) → value (from_u64 v) ≡ v
unfolding from_u64
from_u64-value v = omega arith

pub from_u64-IsWords : {v : ℕ} → v < 2 ^ 64 → IsWords (from_u64 v)
unfolding from_u64
from_u64-IsWords h = omega arith

pub mul64-IsWords : {a b : ℕ} → a < 2 ^ 64 → b < 2 ^ 64 → IsWords (mul64 a b)
unfolding mul64
mul64-IsWords {a} {b} ha hb =
    let small : a * b < 2 ^ 128 = grind arith in
    record { hi_word = omega arith; lo_word = omega arith }

pub mul64-value : (a b : ℕ) → value (mul64 a b) ≡ a * b
unfolding mul64
mul64-value a b = omega arith

pub add-value :
    {a b : U128}
    → IsWords a
    → IsWords b
    → IsWords (add a b).0 × (value (add a b).0 ≡ (value a + value b) % 2 ^ 128)
unfolding add
add-value wa wb = (record { hi_word = omega arith; lo_word = omega arith }, omega arith)

pub add-fits :
    {a b : U128}
    → IsWords a
    → IsWords b
    → (add a b).1 ≡ true
    → value (add a b).0 ≡ value a + value b
unfolding add
add-fits wa wb h = ground arith

pub add-wraps :
    {a b : U128} → IsWords a → IsWords b → (add a b).1 ≡ false → 2 ^ 128 ≤ value a + value b
unfolding add
add-wraps wa wb h = ground arith

pub sub-value :
    {a b : U128}
    → IsWords a
    → IsWords b
    → IsWords (sub a b) × (value (sub a b) ≡ (value a + 2 ^ 128 - value b) % 2 ^ 128)
unfolding sub
sub-value wa wb = (record { hi_word = ground arith; lo_word = ground arith }, ground arith)

-- What a scaling by a power of ten returns: the exact product, or nothing if it needs more bits.
abbrev pub Scaled : ℕ → Option U128 → Type 0
Scaled x none = 2 ^ 128 ≤ x
Scaled x (some c) = IsWords c × (value c ≡ x)

mul_ten-Scaled : {a : U128} → IsWords a → Scaled (value a * 10) (mul_ten a)
unfolding mul_ten
mul_ten-Scaled w = ground arith

mul_pow_suc : (x n : ℕ) → x * 10 ^ suc n ≡ x * 10 * 10 ^ n
mul_pow_suc x n = rw pow-suc (grind (arith, mul_assoc x 10 (10 ^ n), mul_comm 10 (10 ^ n)))

grown : (x n : ℕ) → 2 ^ 128 ≤ x * 10 → 2 ^ 128 ≤ x * 10 ^ suc n
grown x n h = rw mul_pow_suc (grind (arith, one-le-pow n 10 (omega arith)))

-- mulPow10 on two words is the exact product by a power of ten, and reports that it does not fit
-- exactly when that product needs more than 128 bits.
pub mul_pow10-Scaled : (n : ℕ) {a : U128} → IsWords a → Scaled (value a * 10 ^ n) (mul_pow10 a n)
unfolding mul_pow10
mul_pow10-Scaled zero w = (w, omega arith)
mul_pow10-Scaled (suc n) {a} w = elim (Option-cases (mul_ten a)) [
  | inl e ↦
      let big : 2 ^ 128 ≤ value a * 10 = rw e at (mul_ten-Scaled w) in
      rw (e, mul_pow10) (grown (value a) n big)
  | inr (a', e) ↦
      let exact : Scaled (value a * 10) (some a') = rw e at (mul_ten-Scaled w) in
      rw (e, mul_pow10, mul_pow_suc (value a) n, ← exact.1) (mul_pow10-Scaled n exact.0)
]
