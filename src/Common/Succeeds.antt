-- ===== src/Common/Succeeds.antt =====
-- What holds of a result that is certain to be a value, with a chain as for postconditions.
use mathlib.Core.Path.{◌≡◌, refl}
use mathlib.Core.Bool.{Bool, true, false}
use nexus_relay.Common.Errors.{Error, Result, ok, ◌>>=◌, fail_if}

pub data Succeeds {ℓ κ} {A : Type ℓ} (P : A → Type κ) : Result A → Type (ℓ ⊔ κ) where
  succeeds : {a : A} → P a → Succeeds P (ok a)

module _ {ℓ κ} {A : Type ℓ} {P : A → Type κ} where
  pub Succeeds-of : {m : Result A} {a : A} → m ≡ ok a → P a → Succeeds P m
  Succeeds-of e p = rw e (succeeds p)

  pub Succeeds-ok : {m : Result A} → Succeeds P m → (a : A) × (m ≡ ok a) × P a
  Succeeds-ok (succeeds {a} p) = (a, refl, p)

infixr 5 ◌≫◌
pub ◌≫◌ {ℓ κ μ ν} :
    {A : Type ℓ} {B : Type κ} {P : A → Type μ} {Q : B → Type ν} {m : Result A} {f : A → Result B}
    → Succeeds P m
    → ((a : A) → P a → Succeeds Q (f a))
    → Succeeds Q (m >>= f)
◌≫◌ (succeeds {a} p) k = k a p

pub fail_if-Succeeds :
    (test : Bool) (e : Error) → test ≡ false → Succeeds (λ _. test ≡ false) (fail_if test e)
unfolding fail_if
fail_if-Succeeds true e h = cc
fail_if-Succeeds false e h = succeeds refl
