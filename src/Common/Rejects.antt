-- ===== src/Common/Rejects.antt =====
-- What holds of the error of a fallible function, if there is one, with a chain as for postconditions.
use mathlib.Core.Bool.{Bool, true, false}
use mathlib.Core.Option.{Option, none, some}
use nexus_relay.Common.Errors.{Error, Result, ok, ◌>>=◌, err, fail_if, or_fail}

pub data Rejects {ℓ} {A : Type ℓ} (P : Error → Type 0) : Result A → Type ℓ where
  passes : {a : A} → Rejects P (ok a)
  rejects : {e : Error} → P e → Rejects P (err e)

module _ {ℓ} {A : Type ℓ} {P : Error → Type 0} where
  pub Rejects-err : {e : Error} → Rejects {A = A} P (err e) → P e
  Rejects-err (rejects p) = p

  pub Rejects-map :
      {Q : Error → Type 0} {m : Result A} → ((e : Error) → P e → Q e) → Rejects P m → Rejects Q m
  Rejects-map f passes = passes
  Rejects-map f (rejects {e} p) = rejects (f e p)

infixr 5 ◌≫◌
pub ◌≫◌ {ℓ κ} :
    {A : Type ℓ} {B : Type κ} {P : Error → Type 0} {m : Result A} {f : A → Result B}
    → Rejects P m
    → ((a : A) → Rejects P (f a))
    → Rejects P (m >>= f)
◌≫◌ (passes {a}) k = k a
◌≫◌ (rejects p) k = rejects p

pub fail_if-Rejects :
    {P : Error → Type 0} (test : Bool) (e : Error) → P e → Rejects P (fail_if test e)
unfolding fail_if
fail_if-Rejects true e p = rejects p
fail_if-Rejects false e p = passes

pub or_fail-Rejects {ℓ} :
    {A : Type ℓ} {P : Error → Type 0} (o : Option A) (e : Error) → P e → Rejects P (or_fail o e)
unfolding or_fail
or_fail-Rejects none e p = rejects p
or_fail-Rejects (some a) e p = passes
