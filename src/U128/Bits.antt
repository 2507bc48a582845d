-- ===== src/U128/Bits.antt =====
-- The bit operations of the long division, as arithmetic on the numbers of the halves.
use Prim.Native.Nat.{bit_or}
use native.Mathlib.Nat.{
  pow-suc, div-div-eq-div-mul, mul-add-div_right, mod-eq_of_lt, mul_comm, mul-sub,
}
use integrations_challenge.Prelude.{
  ℕ, suc, ◌+◌, ◌-◌, ◌*◌, ◌/◌, ◌%◌, ◌^◌, ◌≤◌, ◌<◌, ◌≡◌, sym, ◌∙◌, inl, inr, true, false, arith, leb,
  Bool-cases,
}
use integrations_challenge.Prelude.Pow.{pow-add, pow_pos, bit_or_disjoint}
use integrations_challenge.U128.{U128, IsWords, value, bit, set_bit, shift_in}

-- A power of two below 2^64 splits 2^64.
pow_split : (n : ℕ) → n ≤ 64 → 2 ^ n * 2 ^ (64 - n) ≡ 2 ^ 64
pow_split n h = let e : n + (64 - n) ≡ 64 = omega arith in sym (pow-add 2 n (64 - n)) ∙ rw e

high_word : (a : U128) (n : ℕ) → a.lo < 2 ^ 64 → value a / 2 ^ (64 + n) ≡ a.hi / 2 ^ n
high_word a n h =
    let top : value a / 2 ^ 64 ≡ a.hi = omega arith in
    rw (pow-add 2 64 n, ← div-div-eq-div-mul (value a) (2 ^ 64) (2 ^ n), top)

low_word : (a : U128) (n : ℕ) → n < 64 → value a / 2 ^ n % 2 ≡ a.lo / 2 ^ n % 2
low_word a n h =
    let odd_left : 64 - n ≡ suc (63 - n) = omega arith in
    let split = pow_split n (omega arith) in
    let regroup : a.hi * 2 ^ 64 ≡ a.hi * 2 ^ (63 - n) * 2 * 2 ^ n =
      rw (← split, odd_left, pow-suc 2 (63 - n)) (grind arith) in
    rw (regroup, mul-add-div_right (pow_pos n) (a.hi * 2 ^ (63 - n) * 2) a.lo) (omega arith)

pub bit-value : (a : U128) (i : ℕ) → IsWords a → bit a i ≡ value a / 2 ^ i % 2
unfolding bit
bit-value a i w = elim (Bool-cases (leb 64 i)) [
  | inl high ↦
      let e : 64 + (i - 64) ≡ i = ground arith in
      let top = high_word a (i - 64) w.lo_word in rw (high, ← top, e)
  | inr low ↦ rw low (sym (low_word a i (ground arith)))
]

double_word : (w : ℕ) → w * 2 % 2 ^ 64 ≡ w % 2 ^ 63 * 2 ^ 1
double_word w = omega arith

pub shift_in-value :
    {r : U128} {b : ℕ}
    → IsWords r
    → b < 2
    → IsWords (shift_in r b) × (value (shift_in r b) ≡ (value r * 2 + b) % 2 ^ 128)
unfolding shift_in
shift_in-value {r} {b} w h =
    rw
      (
        double_word r.hi,
        double_word r.lo,
        bit_or_disjoint 1 (r.hi % 2 ^ 63) (r.lo / 2 ^ 63) (omega arith),
        bit_or_disjoint 1 (r.lo % 2 ^ 63) b (omega arith),
      )
      (record { hi_word = omega arith; lo_word = omega arith }, omega arith)

-- A word whose low bits up to bit `n` are clear.
or_bit :
    (w k n : ℕ)
    → w < 2 ^ 64
    → n < 64
    → w ≡ k * 2 ^ suc n
    → (bit_or w (2 ^ n % 2 ^ 64) ≡ w + 2 ^ n) × (w + 2 ^ n < 2 ^ 64)
or_bit w k n hw hn e =
    let split = pow_split (suc n) (omega arith) in
    let twice = pow-suc 2 n in
    let here = pow_pos n in
    let room : k < 2 ^ (64 - suc n) = grind arith in
    let fits : w + 2 ^ suc n ≤ 2 ^ 64 = grind arith in
    let whole : 2 ^ n % 2 ^ 64 ≡ 2 ^ n = mod-eq_of_lt (omega arith) in
    (rw (whole, e) (bit_or_disjoint (suc n) k (2 ^ n) (omega arith)), omega arith)

sub-mul : (m k n : ℕ) → (m - k) * n ≡ m * n - k * n
sub-mul m k n = rw (mul_comm (m - k) n, mul-sub n m k, mul_comm n m, mul_comm n k)

-- The quotient under construction has no bit at or below bit `i`: setting it adds 2^i.
module _ {q : U128} (m : ℕ) (w : IsWords q) where
  set_high :
      (n : ℕ)
      → n < 64
      → value q ≡ m * 2 ^ suc (64 + n)
      → IsWords (set_bit q (64 + n)) × (value (set_bit q (64 + n)) ≡ value q + 2 ^ (64 + n))
  unfolding set_bit
  set_high n h e =
      let split = pow-add 2 64 (suc n) in
      let shifted : suc (64 + n) ≡ 64 + suc n = omega arith in
      let back : 64 + n - 64 ≡ n = omega arith in
      let regroup : value q ≡ m * 2 ^ suc n * 2 ^ 64 = rw (e, shifted, split) (grind arith) in
      let top : q.hi ≡ m * 2 ^ suc n = omega arith in
      let (set_hi, fits) = or_bit q.hi m n w.hi_word h top in
      let high : leb 64 (64 + n) ≡ true = ground arith in
      rw (high, back, set_hi, pow-add 2 64 n)
        (record { hi_word = fits; lo_word = w.lo_word }, omega arith)

  set_low :
      (i : ℕ)
      → i < 64
      → value q ≡ m * 2 ^ suc i
      → IsWords (set_bit q i) × (value (set_bit q i) ≡ value q + 2 ^ i)
  unfolding set_bit
  set_low i h e =
      let split = pow_split (suc i) (omega arith) in
      let regroup : q.hi * 2 ^ 64 ≡ q.hi * 2 ^ (64 - suc i) * 2 ^ suc i =
        rw (← split) (grind arith) in
      let rest : q.lo ≡ (m - q.hi * 2 ^ (64 - suc i)) * 2 ^ suc i =
        rw (sub-mul m (q.hi * 2 ^ (64 - suc i)) (2 ^ suc i)) (omega arith) in
      let (set_lo, fits) = or_bit q.lo (m - q.hi * 2 ^ (64 - suc i)) i w.lo_word h rest in
      let low : leb 64 i ≡ false = ground arith in
      rw (low, set_lo) (record { hi_word = w.hi_word; lo_word = fits }, omega arith)

pub set_bit-value :
    {q : U128} (m : ℕ) {i : ℕ}
    → IsWords q
    → i < 128
    → value q ≡ m * 2 ^ suc i
    → IsWords (set_bit q i) × (value (set_bit q i) ≡ value q + 2 ^ i)
set_bit-value {q} m {i} w h e = elim (Bool-cases (leb 64 i)) [
  | inl high ↦
      let same : 64 + (i - 64) ≡ i = ground arith in
      rw same at (set_high m w (i - 64) (ground arith) (rw same e))
  | inr low ↦ set_low m w i (ground arith) e
]
