-- ===== src/U128.antt =====
-- internal/model/u128.go: unsigned 128-bit integers as two uint64 halves.
-- A uint64 is a native number below 2^64; every operation keeps its wrap-around. The functions
-- of math/bits are given by what they compute on 64-bit words.
pub mod Arith
pub mod Bits
pub mod DivMod
mod Tests
use Prim.Native.Nat.{bit_or}
use integrations_challenge.Prelude.{
  ℕ, zero, suc, ◌+◌, ◌-◌, ◌*◌, ◌/◌, ◌%◌, ◌^◌, ◌<◌, Bool, true, false, not, ◌&&◌, ◌||◌, Option, none,
  some, ltb, leb, ◌==◌, if◌then◌else◌,
}

-- `type u128 struct { hi, lo uint64 }`
pub record U128 : Type 0 where
  pub hi : ℕ
  pub lo : ℕ

-- Both halves are 64-bit words.
pub record IsWords (a : U128) : Type 0 where
  pub hi_word : a.hi < 2 ^ 64
  pub lo_word : a.lo < 2 ^ 64

-- The number that the two halves stand for.
abbrev pub value : U128 → ℕ
value a = a.hi * 2 ^ 64 + a.lo

abbrev pub nil : U128
nil = record { hi = 0; lo = 0 }

-- math/bits: the exact product, the sum with carry and the difference with borrow of two words.
abbrev pub mul_words : ℕ → ℕ → ℕ × ℕ
mul_words a b = (a * b / 2 ^ 64, a * b % 2 ^ 64)

abbrev pub add_words : ℕ → ℕ → ℕ → ℕ × ℕ
add_words a b carry = ((a + b + carry) % 2 ^ 64, (a + b + carry) / 2 ^ 64)

abbrev pub sub_words : ℕ → ℕ → ℕ → ℕ × ℕ
sub_words a b borrow = ((a + 2 ^ 64 - b - borrow) % 2 ^ 64, if ltb a (b + borrow) then 1 else 0)

-- math/bits: the quotient and the remainder of hi * 2^64 + lo by y, where hi < y.
abbrev pub div_words : ℕ → ℕ → ℕ → ℕ × ℕ
div_words hi lo y = ((hi * 2 ^ 64 + lo) / y, (hi * 2 ^ 64 + lo) % y)

-- u128From
unfoldable pub from_u64 : ℕ → U128
from_u64 v = record { hi = 0; lo = v }

unfoldable pub mul64 : ℕ → ℕ → U128
mul64 a b = let (hi, lo) = mul_words a b in record { hi = hi; lo = lo }

unfoldable pub is_zero : U128 → Bool
is_zero a = (a.hi == 0) && (a.lo == 0)

-- The three results -1, 0 and 1 of Go's comparisons.
pub data Sign : Type 0 where
  less same more : Sign

unfoldable pub cmp : U128 → U128 → Sign
cmp a b =
    if a.hi == b.hi
    then if a.lo == b.lo then same else if ltb a.lo b.lo then less else more
    else if ltb a.hi b.hi
    then less
    else more

-- `c >= 0`
abbrev pub at_least : Sign → Bool
at_least less = false
at_least same = true
at_least more = true

-- The sum and whether it fits in 128 bits.
unfoldable pub add : U128 → U128 → U128 × Bool
add a b =
    let (lo, carry) = add_words a.lo b.lo 0 in
    let (hi, carry') = add_words a.hi b.hi carry in (record { hi = hi; lo = lo }, carry' == 0)

unfoldable pub sub : U128 → U128 → U128
sub a b =
    let (lo, borrow) = sub_words a.lo b.lo 0 in
    let (hi, _) = sub_words a.hi b.hi borrow in record { hi = hi; lo = lo }

-- One round of the loop in mulPow10: the value times ten, unless it passes 128 bits. The pair
-- `(v, ok)` is an Option: with ok false the value is u128{}.
unfoldable pub mul_ten : U128 → Option U128
unfolding add mul64
mul_ten a =
    let low = mul64 a.lo 10 in
    let (carry, high) = mul_words a.hi 10 in
    let (sum, fits) = add low (record { hi = high; lo = 0 }) in
    if not (carry == 0) then none else if not fits then none else some sum

-- `for ; n > 0; n--`
unfoldable pub mul_pow10 : U128 → ℕ → Option U128
mul_pow10 a zero = some a
mul_pow10 a (suc n) = elim (mul_ten a) [ none ↦ none | some a' ↦ mul_pow10 a' n ]

-- `>> n & 1`
abbrev pub word_bit : ℕ → ℕ → ℕ
word_bit w n = w / 2 ^ n % 2

unfoldable pub bit : U128 → ℕ → ℕ
bit a i = if leb 64 i then word_bit a.hi (i - 64) else word_bit a.lo i

unfoldable pub set_bit : U128 → ℕ → U128
set_bit a i =
    if leb 64 i
    then record a { hi = bit_or a.hi (2 ^ (i - 64) % 2 ^ 64) }
    else record a { lo = bit_or a.lo (2 ^ i % 2 ^ 64) }

-- The quotient and the remainder built so far by the long division.
pub record Partial : Type 0 where
  pub q : U128
  pub r : U128

-- The remainder shifted left by one with bit `i` of the dividend brought down; the bit that falls
-- out on the left is `carry`.
unfoldable pub shift_in : U128 → ℕ → U128
shift_in r b = record {
  hi = bit_or (r.hi * 2 % 2 ^ 64) (r.lo / 2 ^ 63);
  lo = bit_or (r.lo * 2 % 2 ^ 64) b;
}

-- One round of the long division, for bit `i`.
unfoldable pub div_step : U128 → U128 → ℕ → Partial → Partial
div_step a b i p =
    let carry = p.r.hi / 2 ^ 63 in
    let r = shift_in p.r (bit a i) in
    if (carry == 1) || at_least (cmp r b)
    then record { q = set_bit p.q i; r = sub r b }
    else record p { r = r }

-- `for i := n-1; i >= 0; i--`
unfoldable pub long_div : U128 → U128 → ℕ → Partial → Partial
long_div a b zero p = p
long_div a b (suc i) p = long_div a b i (div_step a b i p)

-- The end of divMod: the two quotients by one word, and otherwise the loop.
unfoldable pub div_rest : U128 → U128 → Partial
div_rest a b =
    let long = long_div a b 128 (record { q = nil; r = nil }) in
    let (quo, left) = div_words a.hi a.lo b.lo in
    if (b.hi == 0) && (a.hi == 0)
    then record { q = from_u64 (a.lo / b.lo); r = from_u64 (a.lo % b.lo) }
    else if (b.hi == 0) && ltb a.hi b.lo
    then record { q = from_u64 quo; r = from_u64 left }
    else long

-- divMod; `none` is the panic on a zero divisor.
unfoldable pub div_mod : U128 → U128 → Option Partial
div_mod a b =
    let rest = some (div_rest a b) in
    if is_zero b
    then none
    else if at_least (cmp a b)
    then rest
    else some (record { q = nil; r = a })
