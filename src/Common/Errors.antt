-- ===== src/Common/Errors.antt =====
-- The errors of the program's `fmt.Errorf` calls by their arguments, and the result of a fallible
-- function: Go's pair of a value and an error, of which callers read one.
use Prim.Native.Nat.{ℕ}
use Prim.Native.String.{String}
use mathlib.Core.Path.{◌≡◌, refl}
use mathlib.Core.Logic.{◌↔◌}
use mathlib.Core.Bool.{Bool, true, false}
use mathlib.Core.Option.{Option, none, some}

pub data Error : Type 0 where
  -- a text without arguments
  plain : String → Error
  -- "%s ..." and "read %s: ...", with the setting's name and the text behind it
  setting reading : String → String → Error
  -- "%s must be an integer from %d through %d"
  not_in : String → ℕ → ℕ → Error
  -- "%s must be between %s and %s"
  not_between : String → ℕ → ℕ → Error
  -- "%s must equal %s"
  must_equal : String → String → Error
  -- "read %s: secret file exceeds %d bytes"
  exceeds : String → ℕ → Error
  -- "environment file line %d: ...", with the key that the text names
  at_line : ℕ → String → String → Error
  -- "...: %w"
  wrapped : String → Error → Error
  -- "read %s: ...: %v"
  reading_because : String → String → Error → Error
  -- "... %d"
  numbered : String → ℕ → Error
  -- "%s and %s must ..."
  clash : String → String → String → Error

pub data Result {ℓ} (V : Type ℓ) : Type ℓ where
  err : Error → Result V
  ok : V → Result V

infixl 5 ◌>>=◌ ◌>>◌
abbrev pub ◌>>=◌ {κ ℓ} : {V : Type κ} {B : Type ℓ} → Result V → (V → Result B) → Result B
err error >>= step = err error
ok value >>= step = step value

abbrev pub ◌>>◌ {κ} : {B : Type κ} → (check : Result (Unit {0})) → Result B → Result B
check >> later = check >>= λ _. later

-- `if test { return err }`. It stays shut in the parsers, so that a proof goes through their `do`
-- blocks step by step.
unfoldable pub fail_if : Bool → Error → Result (Unit {0})
fail_if true e = err e
fail_if false e = ok tt

unfoldable pub or_fail {ℓ} : {A : Type ℓ} → Option A → Error → Result A
or_fail none e = err e
or_fail (some a) e = ok a

-- Two checks in a row pass exactly when both pass.
pub >>-eq-ok_iff : (m k : Result (Unit {0})) → ((m >> k) ≡ ok tt) ↔ ((m ≡ ok tt) × (k ≡ ok tt))
>>-eq-ok_iff (ok u) k = (λ e. (refl, e), λ (_, e). e)
>>-eq-ok_iff (err e) k = (λ p. cc, λ (p, _). cc)

-- A step that passed did so at a value of the first.
pub >>=-eq-ok {κ ℓ} :
    {B : Type ℓ} {result : B} {V : Type κ} (first : Result V) (step : V → Result B)
    → first >>= step ≡ ok result
    → (value : V) × (step value ≡ ok result) × (first ≡ ok value)
>>=-eq-ok (err error) step passes = cc
>>=-eq-ok (ok value) step passes = (value, passes, refl)
