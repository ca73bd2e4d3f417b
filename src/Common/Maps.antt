-- ===== src/Common/Maps.antt =====
-- A Go map with string keys, as an association list. Reads take the first entry of a key.
use Prim.Native.String.{String}
use mathlib.Core.Path.{◌≡◌, refl, ap}
use mathlib.Core.Bool.{Bool, true, false}
use mathlib.Core.Option.{Option, none, some}
use mathlib.Core.List.{List, [], ◌∷◌, ◌++◌}
use native.Mathlib.Omega.{arith}
use text.Mathlib.Text.{◌==◌}
use text.Mathlib.TextEquality.{eq_iff}
use nexus_relay.Common.Tests.{if◌then◌else◌, Bool-cases}
use nexus_relay.Common.Lists.{All}
use mathlib.Core.Logic.{inl, inr}

abbrev pub Map {ℓ} : Type ℓ → Type ℓ
Map V = List (String × V)

module _ {ℓ} {V : Type ℓ} where
  unfoldable pub lookup : String → Map V → Option V
  lookup k [] = none
  lookup k ((j, v) ∷ m) = if j == k then some v else lookup k m

  -- `m[k] = v`: the entry is replaced where it stands, or added at the end.
  unfoldable pub insert : String → V → Map V → Map V
  insert name v [] = (name, v) ∷ []
  insert name v ((key, old) ∷ m) =
      if key == name then (name, v) ∷ m else (key, old) ∷ insert name v m

  abbrev pub is_some : Option V → Bool
  is_some none = false
  is_some (some _) = true

  pub lookup-insert :
      (added name : String) (v : V) (m : Map V)
      → lookup name (insert added v m) ≡ (if added == name then some v else lookup name m)
  unfolding insert lookup
  lookup-insert added name v [] = refl
  lookup-insert added name v ((key, other) ∷ m) =
      ground
        (arith, eq_iff added name, eq_iff key added, eq_iff key name, lookup-insert added name v m)

  -- A new key goes to the end.
  pub insert-append :
      (name : String) (v : V) (m later : Map V)
      → lookup name m ≡ none
      → insert name v m ++ later ≡ m ++ (name, v) ∷ later
  unfolding insert lookup
  insert-append name v [] later h = refl
  insert-append name v ((key, old) ∷ m) later h = elim (Bool-cases (key == name)) [
    | inl same ↦ let bad = rw same at h in cc
    | inr other ↦
        rw other (ap (λ rest. (key, old) ∷ rest) (insert-append name v m later (rw other at h)))
  ]

  pub absent : (o : Option V) → is_some o ≡ false → o ≡ none
  absent none h = refl
  absent (some v) h = cc

  abbrev pub HasDistinctKeys : Map V → Type ℓ
  HasDistinctKeys [] = Unit
  HasDistinctKeys ((name, _) ∷ m) = (lookup name m ≡ none) × HasDistinctKeys m

  pub insert-distinct :
      (name : String) (v : V) (m : Map V)
      → lookup name m ≡ none
      → HasDistinctKeys m
      → HasDistinctKeys (insert name v m)
  unfolding insert lookup
  insert-distinct name v [] fresh h = ground arith
  insert-distinct name v ((k, x) ∷ m) fresh (here, h) =
      ground
        (arith, eq_iff k name, eq_iff name k, lookup-insert name k v m, insert-distinct name v m)

module _ {ℓ κ} {V : Type ℓ} (P : String × V → Type κ) where
  pub insert-All :
      (name : String) (v : V) (m : Map V) → P (name, v) → All P m → All P (insert name v m)
  unfolding insert
  insert-All name v [] e h = (e, tt)
  insert-All name v ((k, x) ∷ m) e (here, h) = elim (Bool-cases (k == name)) [
    | inl same ↦ rw same (e, h)
    | inr other ↦ rw other (here, insert-All name v m e h)
  ]

abbrev pub contains : String → List String → Bool
contains k [] = false
contains k (j ∷ js) = if j == k then true else contains k js

-- None of these keys has an entry.
pub record IsAbsent {ℓ} {V : Type ℓ} (m : Map V) (names : List String) : Type ℓ where
  pub absent : (name : String) → contains name names ≡ true → lookup name m ≡ none
