-- ===== src/Common/Ensures.antt =====
-- Postconditions of fallible functions: what holds of the value, if there is one. A proof about a
-- `do` block is a chain of `≫`, a link for each step.
use mathlib.Core.Path.{◌≡◌, refl}
use mathlib.Core.Bool.{Bool, true, false}
use mathlib.Core.Option.{Option, none, some}
use nexus_relay.Common.Errors.{Error, Result, ok, ◌>>=◌, err, fail_if, or_fail}

pub data Ensures {κ ℓ} {A : Type κ} (Post : A → Type ℓ) : Result A → Type (κ ⊔ ℓ) where
  fails : {e : Error} → Ensures Post (err e)
  holds : {a : A} → Post a → Ensures Post (ok a)

module _ {ℓ κ} {A : Type ℓ} {P : A → Type κ} where
  pub Ensures-ok : {a : A} → Ensures P (ok a) → P a
  Ensures-ok (holds p) = p

  pub Ensures-of : (m : Result A) → ((a : A) → m ≡ ok a → P a) → Ensures P m
  Ensures-of (ok a) h = holds (h a refl)
  Ensures-of (err e) h = fails

-- Nothing is known of the value.
pub Ensures-trivial {ℓ} : {A : Type ℓ} (m : Result A) → Ensures (λ _. Unit {0}) m
Ensures-trivial (ok a) = holds tt
Ensures-trivial (err e) = fails

pub Ensures-map {ℓ κ μ} :
    {A : Type ℓ} {P : A → Type κ} {Q : A → Type μ} {m : Result A}
    → ((a : A) → P a → Q a)
    → Ensures P m
    → Ensures Q m
Ensures-map f (holds {a} p) = holds (f a p)
Ensures-map f fails = fails

-- What a step returned, as an equation.
pub Ensures-eq {ℓ} : {A : Type ℓ} (m : Result A) → Ensures (λ a. m ≡ ok a) m
Ensures-eq (ok a) = holds refl
Ensures-eq (err e) = fails

infixr 5 ◌≫◌
pub ◌≫◌ {ℓ κ μ ν} :
    {A : Type ℓ} {B : Type κ} {P : A → Type μ} {Q : B → Type ν} {m : Result A} {f : A → Result B}
    → Ensures P m
    → ((a : A) → P a → Ensures Q (f a))
    → Ensures Q (m >>= f)
◌≫◌ (holds {a} p) k = k a p
◌≫◌ fails k = fails

-- Behind a guard its test is false.
pub fail_if-Ensures : (test : Bool) (e : Error) → Ensures (λ _. test ≡ false) (fail_if test e)
unfolding fail_if
fail_if-Ensures true e = fails
fail_if-Ensures false e = holds refl

pub or_fail-Ensures {ℓ} :
    {A : Type ℓ} (o : Option A) (e : Error) → Ensures (λ a. o ≡ some a) (or_fail o e)
unfolding or_fail
or_fail-Ensures none e = fails
or_fail-Ensures (some a) e = holds refl
