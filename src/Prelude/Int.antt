-- ===== src/Prelude/Int.antt =====
-- Go's signed integers over the native numbers: exact integers, int64 wrap-around, and the
-- truncating division and remainder.
use Prim.Native.Nat.{ℕ, zero, suc, ◌+◌, ◌-◌, ◌*◌, ◌/◌, ◌%◌, ◌^◌, ◌≤◌, ◌<◌}
use mathlib.Core.Path.{◌≡◌, refl, ap, ◌∙◌}
use mathlib.Core.Logic.{◌≢◌}
use native.Mathlib.Nat.{mul_assoc, div-add-mod'}
use mathlib.Core.Bool.{Bool, true, false, ◌&&◌}
use native.Mathlib.Omega.{arith}
use integrations_challenge.Prelude.Tests.{ltb, leb, ◌==◌, if◌then◌else◌}

-- `negsuc n` is -(n + 1).
pub data ℤ : Type 0 where
  pos : ℕ → ℤ
  negsuc : ℕ → ℤ

abbrev pub pos_part : ℤ → ℕ
pos_part (pos n) = n
pos_part (negsuc n) = 0

abbrev pub neg_part : ℤ → ℕ
neg_part (pos n) = 0
neg_part (negsuc n) = suc n

-- |v|
abbrev pub abs : ℤ → ℕ
abs (pos n) = n
abs (negsuc n) = suc n

-- a - b, as an integer.
abbrev pub sub_ℕ : ℕ → ℕ → ℤ
sub_ℕ a b = if leb b a then pos (a - b) else negsuc (b - a - 1)

infixl 65 ◌+ℤ◌ ◌-ℤ◌
infixl 70 ◌*ℕ◌
infix 50 ◌≤ℤ◌ ◌<ℤ◌ ◌==ℤ◌
unfoldable pub ◌+ℤ◌ : ℤ → ℤ → ℤ
a +ℤ b = sub_ℕ (pos_part a + pos_part b) (neg_part a + neg_part b)

unfoldable pub ◌-ℤ◌ : ℤ → ℤ → ℤ
a -ℤ b = sub_ℕ (pos_part a + neg_part b) (neg_part a + pos_part b)

-- -a, exactly
abbrev pub neg : ℤ → ℤ
neg (pos zero) = pos zero
neg (pos (suc n)) = negsuc n
neg (negsuc n) = pos (suc n)

-- The exact product with a number.
abbrev pub ◌*ℕ◌ : ℤ → ℕ → ℤ
pos n *ℕ f = pos (n * f)
negsuc n *ℕ f = neg (pos (suc n * f))

abbrev pub ◌≤ℤ◌ : ℤ → ℤ → Type 0
a ≤ℤ b = pos_part a + neg_part b ≤ pos_part b + neg_part a

abbrev pub ◌<ℤ◌ : ℤ → ℤ → Type 0
a <ℤ b = pos_part a + neg_part b < pos_part b + neg_part a

abbrev pub ltb_ℤ : ℤ → ℤ → Bool
ltb_ℤ a b = ltb (pos_part a + neg_part b) (pos_part b + neg_part a)

abbrev pub leb_ℤ : ℤ → ℤ → Bool
leb_ℤ a b = leb (pos_part a + neg_part b) (pos_part b + neg_part a)

abbrev pub ◌==ℤ◌ : ℤ → ℤ → Bool
a ==ℤ b = (pos_part a == pos_part b) && (neg_part a == neg_part b)

-- The int64 that a 64-bit pattern stands for.
abbrev pub signed : ℕ → ℤ
signed w = if ltb w (2 ^ 63) then pos w else negsuc (2 ^ 64 - 1 - w)

-- Go's conversion of an int64 to uint64: the pattern of a number mod 2^64; -(n + 1) for `negsuc n`.
abbrev pub to_u64 : ℤ → ℕ
to_u64 (pos n) = n % 2 ^ 64
to_u64 (negsuc n) = 2 ^ 64 - 1 - n % 2 ^ 64

-- The int64 that an exact result wraps to.
abbrev pub wrap : ℤ → ℤ
wrap a = signed (to_u64 a)

abbrev pub min_int64 : ℤ
min_int64 = negsuc (2 ^ 63 - 1)

abbrev pub max_int64 : ℤ
max_int64 = pos (2 ^ 63 - 1)

-- Go's `/` and `%` truncate toward zero; the remainder has the dividend's sign.
abbrev pub quot : ℤ → ℕ → ℤ
quot (pos n) f = pos (n / f)
quot (negsuc n) f = neg (pos (suc n / f))

abbrev pub rem : ℤ → ℕ → ℤ
rem (pos n) f = pos (n % f)
rem (negsuc n) f = neg (pos (suc n % f))

pub +ℤ_parts :
    (a b : ℤ)
    → pos_part (a +ℤ b) + neg_part a + neg_part b ≡ neg_part (a +ℤ b) + pos_part a + pos_part b
unfolding ◌+ℤ◌
+ℤ_parts a b = ground arith

pub -ℤ_parts :
    (a b : ℤ)
    → pos_part (a -ℤ b) + neg_part a + pos_part b ≡ neg_part (a -ℤ b) + pos_part a + neg_part b
unfolding ◌-ℤ◌
-ℤ_parts a b = ground arith

pub eq_of_parts : (a b : ℤ) → pos_part a + neg_part b ≡ pos_part b + neg_part a → a ≡ b
eq_of_parts a b h = ground arith

pub ruleset int_laws = (arith, +ℤ_parts, -ℤ_parts, eq_of_parts)

-- Wrapping changes nothing within the symmetric range.
pub wrap_id : (a : ℤ) → abs a < 2 ^ 63 → wrap a ≡ a
wrap_id (pos n) h = ground arith
wrap_id (negsuc n) h = ground arith

-- A wrapped value other than the least int64 has a magnitude of 63 bits.
pub wrap-abs : (a : ℤ) → (wrap a ==ℤ min_int64) ≡ false → abs (wrap a) < 2 ^ 63
wrap-abs (pos n) h = ground arith
wrap-abs (negsuc n) h = ground arith

pub ==ℤ_eq : (a b : ℤ) → (a ==ℤ b) ≡ true → a ≡ b
==ℤ_eq a b h = ground arith

pub ==ℤ_refl : (a : ℤ) → (a ==ℤ a) ≡ true
==ℤ_refl a = ground arith

pub min-ne : (a : ℤ) → abs a < 2 ^ 63 → (a ==ℤ min_int64) ≡ false
min-ne (pos n) h = ground arith
min-ne (negsuc n) h = ground arith

neg-*ℕ : (x g : ℕ) → neg (pos x) *ℕ g ≡ neg (pos (x * g))
neg-*ℕ zero g = ground arith
neg-*ℕ (suc x) g = refl

pub *ℕ_assoc : (u : ℤ) (f g : ℕ) → u *ℕ f *ℕ g ≡ u *ℕ (f * g)
*ℕ_assoc (pos n) f g = ap pos (mul_assoc n f g)
*ℕ_assoc (negsuc n) f g = neg-*ℕ (suc n * f) g ∙ ap (λ (t : ℕ). neg (pos t)) (mul_assoc (suc n) f g)

pub abs-neg : (x : ℕ) → abs (neg (pos x)) ≡ x
abs-neg zero = refl
abs-neg (suc x) = refl

pub abs-*ℕ : (u : ℤ) (f : ℕ) → abs (u *ℕ f) ≡ abs u * f
abs-*ℕ (pos n) f = refl
abs-*ℕ (negsuc n) f = abs-neg (suc n * f)

-- The truncating division of Go: what it leaves, and its magnitude.
pub rem-zero : (u : ℤ) (f : ℕ) → (rem u f ==ℤ pos 0) ≡ true → abs u % f ≡ 0
rem-zero (pos n) f h = ground arith
rem-zero (negsuc n) f h = ground (arith, abs-neg (suc n % f))

pub rem-ne_zero : (u : ℤ) (f : ℕ) → (rem u f ==ℤ pos 0) ≡ false → abs u % f ≢ 0
rem-ne_zero (pos n) f h = ground arith
rem-ne_zero (negsuc n) f h = ground (arith, abs-neg (suc n % f))

pub abs-quot : (u : ℤ) (f : ℕ) → abs (quot u f) ≡ abs u / f
abs-quot (pos n) f = refl
abs-quot (negsuc n) f = abs-neg (suc n / f)

pub quot_exact : (u : ℤ) (f : ℕ) → abs u % f ≡ 0 → quot u f *ℕ f ≡ u
quot_exact (pos n) f h = ap pos (omega (arith, div-add-mod' n f))
quot_exact (negsuc n) f h =
    let whole : suc n / f * f ≡ suc n = omega (arith, div-add-mod' (suc n) f) in
    neg-*ℕ (suc n / f) f ∙ rw whole

pos_part-neg : (x : ℕ) → pos_part (neg (pos x)) ≡ 0
pos_part-neg zero = refl
pos_part-neg (suc x) = refl

neg_part-neg : (x : ℕ) → neg_part (neg (pos x)) ≡ x
neg_part-neg zero = refl
neg_part-neg (suc x) = refl

pub *ℕ_parts :
    (u : ℤ) (f : ℕ) → (pos_part (u *ℕ f) ≡ pos_part u * f) × (neg_part (u *ℕ f) ≡ neg_part u * f)
*ℕ_parts (pos n) f = (refl, omega arith)
*ℕ_parts (negsuc n) f = (pos_part-neg (suc n * f) ∙ omega arith, neg_part-neg (suc n * f))

pub +ℤ-*ℕ : (a b : ℤ) (f : ℕ) → (a +ℤ b) *ℕ f ≡ a *ℕ f +ℤ b *ℕ f
+ℤ-*ℕ a b f =
    let scaled = ap (λ (t : ℕ). t * f) (+ℤ_parts a b) in
    omega (int_laws, scaled, *ℕ_parts a f, *ℕ_parts b f, *ℕ_parts (a +ℤ b) f)

pub -ℤ-*ℕ : (a b : ℤ) (f : ℕ) → (a -ℤ b) *ℕ f ≡ a *ℕ f -ℤ b *ℕ f
-ℤ-*ℕ a b f =
    let scaled = ap (λ (t : ℕ). t * f) (-ℤ_parts a b) in
    omega (int_laws, scaled, *ℕ_parts a f, *ℕ_parts b f, *ℕ_parts (a -ℤ b) f)
