-- ===== src/Common/Text/Laws.antt =====
-- Laws of the text functions.
use Prim.Native.Char.{Char, code}
use Prim.Native.String.{String, [], ◌∷◌, ◌++◌}
use Prim.Native.Nat.{ℕ}
use mathlib.Core.Path.{◌≡◌, refl}
use mathlib.Core.Bool.{Bool, true, false, ◌||◌}
use mathlib.Core.Option.{some}
use mathlib.Core.List.{List}
use native.Mathlib.Omega.{arith}
use text.Mathlib.TextLemmas.{nil-append, cons-append}
use mathlib.Core.Logic.{inl, inr}
use nexus_relay.Common.Tests.{nat_eq, Option-cases}
use nexus_relay.Common.Text.{any_code, all_codes, cut, split, trim_suffix}

-- The text holds no such character.
abbrev pub Lacks : ℕ → String → Type 0
Lacks sep s = any_code (λ c. nat_eq c sep) s ≡ false

pub cut-append :
    (sep : ℕ) (name : String) (c : Char) (rest : String)
    → Lacks sep name
    → code c ≡ sep
    → cut sep (name ++ (c ∷ rest)) ≡ some (name, rest)
unfolding cut
cut-append sep [] c rest h e = rw nil-append (ground arith)
cut-append sep (d ∷ name) c rest h e = rw cons-append (ground (arith, cut-append sep name c rest))

pub split-append :
    (sep : ℕ) (line : String) (c : Char) (rest : String)
    → Lacks sep line
    → code c ≡ sep
    → split sep (line ++ (c ∷ rest)) ≡ List.◌∷◌ line (split sep rest)
unfolding split
split-append sep [] c rest h e = rw nil-append (ground arith)
split-append sep (d ∷ line) c rest h e =
    rw cons-append (ground (arith, split-append sep line c rest))

pub trim_suffix_of_Lacks : (sep : ℕ) (s : String) → Lacks sep s → trim_suffix sep s ≡ s
unfolding trim_suffix
trim_suffix_of_Lacks sep [] h = refl
trim_suffix_of_Lacks sep (c ∷ []) h = ground arith
trim_suffix_of_Lacks sep (c ∷ d ∷ s) h = ground (arith, trim_suffix_of_Lacks sep (d ∷ s))

pub any_code-append :
    (p : ℕ → Bool) (s t : String) → any_code p (s ++ t) ≡ (any_code p s || any_code p t)
any_code-append p [] t = rw nil-append
any_code-append p (c ∷ s) t = rw cons-append (ground (arith, any_code-append p s t))

-- What cut leaves is part of the text.
pub cut-any_code :
    (sep : ℕ) (p : ℕ → Bool) (s : String) (parts : String × String)
    → cut sep s ≡ some parts
    → any_code p s ≡ false
    → any_code p parts.1 ≡ false
unfolding cut
cut-any_code sep p [] parts e h = ground arith
cut-any_code sep p (c ∷ s) parts e h = elim (Option-cases (cut sep s)) [
  | inl missing ↦ ground arith
  | inr (later, found) ↦ ground (arith, cut-any_code sep p s later)
]

pub any_code_of_all_codes :
    (p q : ℕ → Bool)
    → ((c : ℕ) → p c ≡ true → q c ≡ false)
    → (s : String) → all_codes p s ≡ true
    → any_code q s ≡ false
any_code_of_all_codes p q apart [] h = refl
any_code_of_all_codes p q apart (c ∷ s) h =
    ground (arith, apart (code c), any_code_of_all_codes p q apart s)
