-- ===== src/Prelude/Errors.antt =====
-- Go's `(value, error)`, where the value is meaningless beside an error.
use mathlib.Core.Path.{◌≡◌, refl, subst}
use mathlib.Core.Logic.{◌⊎◌, inl, inr}
use mathlib.Core.Bool.{Bool, true, false}

pub data Result (E A : Type 0) : Type 0 where
  ok : A → Result E A
  err : E → Result E A

infixl 5 ◌>>=◌ ◌>>◌
abbrev pub ◌>>=◌ : {E A B : Type 0} → Result E A → (A → Result E B) → Result E B
ok a >>= f = f a
err e >>= f = err e

abbrev pub ◌>>◌ : {E B : Type 0} → Result E (Unit {0}) → Result E B → Result E B
m >> k = m >>= λ _. k

-- An early return of an error.
abbrev pub fail_if : {E : Type 0} → Bool → E → Result E (Unit {0})
fail_if true e = err e
fail_if false e = ok tt

pub Result-cases :
    {E A : Type 0} (r : Result E A) → ((e : E) × (r ≡ err e)) ⊎ ((a : A) × (r ≡ ok a))
Result-cases (ok a) = inr (a, refl)
Result-cases (err e) = inl (e, refl)

-- A predicate of the value, where there is one.
abbrev pub Holds : {E A : Type 0} → (A → Type 0) → Result E A → Type 0
Holds P (ok a) = P a
Holds P (err e) = Unit

pub bind-Holds :
    {E A B : Type 0} (Q : A → Type 0) (P : B → Type 0) (r : Result E A) (f : A → Result E B)
    → Holds Q r
    → ((a : A) → Q a → Holds P (f a))
    → Holds P (r >>= f)
bind-Holds Q P (ok a) f q p = p a q
bind-Holds Q P (err e) f q p = tt

pub guard-Holds :
    {E B : Type 0} (P : B → Type 0) (test : Bool) (e : E) (r : Result E B)
    → (test ≡ false → Holds P r)
    → Holds P (fail_if test e >> r)
guard-Holds P true e r p = tt
guard-Holds P false e r p = p refl

pub Holds-ok : {E A : Type 0} (P : A → Type 0) (r : Result E A) (a : A) → Holds P r → r ≡ ok a → P a
Holds-ok P r a h e = subst (Holds P) e h
