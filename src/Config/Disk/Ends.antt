-- ===== src/Config/Disk/Ends.antt =====
-- How a step on the disk ends: what holds of the value and the disk, or of the disk after an error.
-- A proof about a `do` block is a chain of `≫`, a link for each step.
use mathlib.Core.Path.{subst}
use nexus_relay.Common.{◌≡◌, refl, Result, Error, ok, err}
use nexus_relay.Config.Disk.{Disk, Action, continue}

pub data Ends {A : Type 0} (Post : A → Disk → Type 0) (Fail : Disk → Type 0)
    : Result A × Disk → Type 0 where
  returns : {a : A} {d : Disk} → Post a d → Ends Post Fail (ok a, d)
  raises : {e : Error} {d : Disk} → Fail d → Ends Post Fail (err e, d)

module _ {A : Type 0} {P : A → Disk → Type 0} {F : Disk → Type 0} where
  pub Ends-ok : {a : A} {d : Disk} → Ends P F (ok a, d) → P a d
  Ends-ok (returns p) = p

  pub Ends-err : {e : Error} {d : Disk} → Ends P F (err e, d) → F d
  Ends-err (raises f) = f

module _ {A B : Type 0} {P : A → Disk → Type 0} {Q : B → Disk → Type 0} {F : Disk → Type 0} where
  infixr 5 ◌≫◌
  pub ◌≫◌ :
      {f : A → Action B} {r : Result A × Disk}
      → Ends P F r
      → ((a : A) (d : Disk) → P a d → Ends Q F (f a d))
      → Ends Q F (continue f r)
  ◌≫◌ (returns {a} {d} p) k = k a d p
  ◌≫◌ (raises f) k = raises f

pub Ends-map :
    {A : Type 0} {P Q : A → Disk → Type 0} {F G : Disk → Type 0} {r : Result A × Disk}
    → ((a : A) (d : Disk) → P a d → Q a d)
    → ((d : Disk) → F d → G d)
    → Ends P F r
    → Ends Q G r
Ends-map f g (returns {a} {d} p) = returns (f a d p)
Ends-map f g (raises {d} p) = raises (g d p)

-- A step that only reads leaves the disk alone, and says what was read.
pub reads-Ends :
    {A : Type 0} {F : Disk → Type 0} (r : Result A) (d : Disk)
    → F d
    → Ends (λ a d'. F d' × (d' ≡ d) × (r ≡ ok a)) F (r, d)
reads-Ends (ok a) d h = returns (h, refl, refl)
reads-Ends (err e) d h = raises h

same_value : {A : Type 0} {a b : A} → ok a ≡ ok b → a ≡ b
same_value e = cc

-- What holds of the disk in either case.
pub Ends-disk :
    {A : Type 0} {F : Disk → Type 0} {Q : A → Disk → Type 0} (r : Result A × Disk)
    → Ends (λ a d. F d × Q a d) F r
    → F r.1
Ends-disk (ok a, d) (returns (f, _)) = f
Ends-disk (err e, d) (raises f) = f

pub Ends-value :
    {A : Type 0} {F : Disk → Type 0} {P : A → Disk → Type 0} (r : Result A × Disk) {a : A}
    → Ends P F r
    → r.0 ≡ ok a
    → P a r.1
Ends-value {P} (ok b, d) (returns p) e = subst (λ x. P x d) (same_value e) p
Ends-value (err x, d) (raises f) e = cc
