-- ===== src/Prelude/Errors.antt =====
-- Go's `(value, error)` results as values, with `do`.
use mathlib.Core.Path.{◌≡◌, refl, subst}
use mathlib.Core.Bool.{Bool, true, false}

pub data Result {ℓ κ} (E : Type ℓ) (A : Type κ) : Type (ℓ ⊔ κ) where
  err : E → Result E A
  ok : A → Result E A

-- The first error ends a chain of steps.
infixl 5 ◌>>=◌ ◌>>◌
abbrev pub ◌>>=◌ {ℓ κ μ} :
    {E : Type ℓ} {A : Type κ} {B : Type μ} → Result E A → (A → Result E B) → Result E B
err failure >>= next = err failure
ok value >>= next = next value

abbrev pub ◌>>◌ {ℓ κ} : {E : Type ℓ} {B : Type κ} → Result E (Unit {0}) → Result E B → Result E B
checked >> next = checked >>= (λ _. next)

-- `if test { return err }`.
unfoldable pub reject {ℓ} : {E : Type ℓ} → Bool → E → Result E (Unit {0})
reject true e = err e
reject false e = ok tt

pub ok-injective {ℓ κ} :
    {E : Type ℓ} {A : Type κ} {a b : A} → ◌≡◌ {A = Result E A} (ok a) (ok b) → a ≡ b
ok-injective h = cc

-- A value that is returned satisfies `P`.
pub data Holds {E A : Type 0} (P : A → Type 0) : Result E A → Type 0 where
  holds : {a : A} → P a → Holds P (ok a)
  fails : {e : E} → Holds P (err e)

pub Holds-bind :
    {E A B : Type 0} (P : A → Type 0) (Q : B → Type 0) (m : Result E A) (f : A → Result E B)
    → Holds P m
    → ((a : A) → P a → Holds Q (f a))
    → Holds Q (m >>= f)
Holds-bind P Q _ f (holds {a} h) k = k a h
Holds-bind P Q _ f fails k = fails

pub Holds-any : {E A : Type 0} (m : Result E A) → Holds (λ _. Unit {0}) m
Holds-any (ok a) = holds tt
Holds-any (err e) = fails

pub Holds-reject :
    {E B : Type 0} (Q : B → Type 0) (test : Bool) (e : E) (rest : Result E B)
    → (test ≡ false → Holds Q rest)
    → Holds Q (reject test e >> rest)
unfolding reject
Holds-reject Q true e rest k = fails
Holds-reject Q false e rest k = k refl

pub Holds-ok : {E A : Type 0} {P : A → Type 0} {r : Result E A} {a : A} → Holds P r → r ≡ ok a → P a
Holds-ok {P} (holds h) e = subst P (ok-injective e) h
Holds-ok fails e = cc
