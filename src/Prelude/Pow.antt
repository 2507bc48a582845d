-- ===== src/Prelude/Pow.antt =====
-- Powers of two, and `|` where the two words have no bit in common.
use Prim.Native.Nat.{
  ℕ, zero, suc, ◌+◌, ◌-◌, ◌*◌, ◌/◌, ◌%◌, ◌^◌, ◌≤◌, ◌<◌, max, bit_or, digits, bit_or-bitwise,
}
use mathlib.Core.Path.{◌≡◌, ◌∙◌, refl, sym, ap}
use native.Mathlib.Omega.{arith}
use native.Mathlib.Nat.{pow-suc, pow-zero, mul_assoc, one-le-pow}

pub pow-add : (b m n : ℕ) → b ^ (m + n) ≡ b ^ m * b ^ n
pow-add b m zero = let e : m + 0 ≡ m = omega arith in rw (e, pow-zero b) (omega arith)
pow-add b m (suc n) =
    let e : m + suc n ≡ suc (m + n) = omega arith in
    rw (e, pow-suc b (m + n), pow-suc b n, pow-add b m n) (mul_assoc (b ^ m) (b ^ n) b)

pub pow_pos : (n : ℕ) → 0 < 2 ^ n
pow_pos n = one-le-pow n 2 (omega arith)

-- `bit_or` goes digit by digit: the largest of each pair of binary digits.
abbrev or_from : ℕ → ℕ → ℕ → ℕ
or_from n a b = digits (λ b. b) max n a b

-- More steps than the digits of the first number change nothing.
or_one_more : (n a b : ℕ) → a ≤ n → or_from (suc n) a b ≡ or_from n a b
or_one_more zero zero b small = refl
or_one_more (suc n) zero b small = refl
or_one_more zero (suc a) b small = absurd (omega arith)
or_one_more (suc n) (suc a) b small =
    let inner = or_one_more n (suc a / 2) (b / 2) (omega arith) in omega arith

or_more : (extra n a b : ℕ) → a ≤ n → or_from (n + extra) a b ≡ or_from n a b
or_more zero n a b small = ap (λ (t : ℕ). or_from t a b) (omega arith)
or_more (suc extra) n a b small =
    let grown : n + suc extra ≡ suc (n + extra) = omega arith in
    rw grown (or_one_more (n + extra) a b (omega arith) ∙ or_more extra n a b small)

half_steps : (a b : ℕ) → or_from a (suc a / 2) b ≡ bit_or (suc a / 2) b
half_steps a b =
    let half = suc a / 2 in
    let all : half + (a - half) ≡ a = omega arith in
    ap (λ (t : ℕ). or_from t half b) (sym all)
    ∙ or_more (a - half) half half b (omega arith)
    ∙ sym (bit_or-bitwise half b)

bit_or_halves : (a b : ℕ) → bit_or a b ≡ bit_or (a / 2) (b / 2) * 2 + max (a % 2) (b % 2)
bit_or_halves zero b =
    let whole = bit_or-bitwise 0 b in let half = bit_or-bitwise 0 (b / 2) in omega arith
bit_or_halves (suc a) b =
    let whole = bit_or-bitwise (suc a) b in omega (arith, half_steps a (b / 2))

or_zero_upto : (n a : ℕ) → a ≤ n → bit_or a 0 ≡ a
or_zero_upto n zero h = refl
or_zero_upto zero (suc a) h = absurd (omega arith)
or_zero_upto (suc n) (suc a) h =
    omega (arith, bit_or_halves (suc a) 0, or_zero_upto n (suc a / 2) (omega arith))

twice_high : (m k : ℕ) → m * 2 ^ suc k ≡ 2 * (m * 2 ^ k)
twice_high m k = omega (arith, ap (λ (t : ℕ). m * t) (pow-suc 2 k))

-- A word whose `k` low bits are clear, and one of at most `k` bits: `|` is their sum.
pub bit_or_disjoint : (k m r : ℕ) → r < 2 ^ k → bit_or (m * 2 ^ k) r ≡ m * 2 ^ k + r
bit_or_disjoint zero m r h = ground (arith, or_zero_upto m m (omega arith))
bit_or_disjoint (suc k) m r h = ground (
  arith,
  bit_or_halves (m * 2 ^ suc k) r,
  twice_high m k,
  pow-suc 2 k,
  bit_or_disjoint k m (r / 2) (omega (arith, pow-suc 2 k)),
)
