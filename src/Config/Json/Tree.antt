-- ===== src/Config/Json/Tree.antt =====
-- JSON values as trees, their tokens, and which of them a schema allows: what scanJSONValue of
-- internal/config/secret.go is compared with.
use nexus_relay.Common.{
  ℕ, suc, ◌+◌, ◌*◌, ◌≤◌, String, Bool, true, false, not, ◌&&◌, none, some, List, [], ◌∷◌, contains,
  length, arith,
}
use nexus_relay.Config.Library.{
  Token, open_object, close_object, open_array, close_array, text, scalar,
}
use nexus_relay.Config.Json.{Schema, Fields, object, array, field_schema}

mutual
  pub data Json : Type 0 where
    text_value : String → Json
    scalar_value : Json
    object_value : Members → Json
    array_value : Items → Json

  pub data Members : Type 0 where
    closed : Members
    member : String → Json → Members → Members

  pub data Items : Type 0 where
    ended : Items
    item : Json → Items → Items

-- the tokens of a value, in front of others
unfoldable mutual
  pub emit : Json → List Token → List Token
  emit (text_value s) rest = text s ∷ rest
  emit scalar_value rest = scalar ∷ rest
  emit (object_value ms) rest = open_object ∷ emit_members ms rest
  emit (array_value xs) rest = open_array ∷ emit_items xs rest

  pub emit_members : Members → List Token → List Token
  emit_members closed rest = close_object ∷ rest
  emit_members (member name j ms) rest = text name ∷ emit j (emit_members ms rest)

  pub emit_items : Items → List Token → List Token
  emit_items ended rest = close_array ∷ rest
  emit_items (item j xs) rest = emit j (emit_items xs rest)

-- An object needs a schema of an object, with a field for each of its names, no name twice and the
-- field's schema for the value; an array needs the schema of an array; other values need none.
unfoldable mutual
  pub conforms : Schema → Json → Bool
  conforms schema (text_value s) = true
  conforms schema scalar_value = true
  conforms (object fields) (object_value ms) = conforms_members fields [] ms
  conforms _ (object_value ms) = false
  conforms (array schema) (array_value xs) = conforms_items schema xs
  conforms _ (array_value xs) = false

  pub conforms_members : Fields → List String → Members → Bool
  conforms_members fields seen closed = true
  conforms_members fields seen (member name j ms) =
      not (contains name seen)
      && elim (field_schema fields name) [ none ↦ false | some schema ↦ conforms schema j ]
      && conforms_members fields (name ∷ seen) ms

  pub conforms_items : Schema → Items → Bool
  conforms_items schema ended = true
  conforms_items schema (item j xs) = conforms schema j && conforms_items schema xs

-- the fuel that a scan takes
unfoldable mutual
  pub weight : Json → ℕ
  weight (text_value s) = 1
  weight scalar_value = 1
  weight (object_value ms) = suc (weight_members ms)
  weight (array_value xs) = suc (weight_items xs)

  pub weight_members : Members → ℕ
  weight_members closed = 1
  weight_members (member name j ms) = suc (weight j + weight_members ms)

  pub weight_items : Items → ℕ
  weight_items ended = 1
  weight_items (item j xs) = suc (weight j + weight_items xs)

-- Twice the number of tokens is more than enough.
mutual
  unfolding weight emit

  pub weight_fits :
      (j : Json) (rest : List Token) → suc (weight j + 2 * length rest) ≤ 2 * length (emit j rest)
  weight_fits (text_value s) rest = omega arith
  weight_fits scalar_value rest = omega arith
  weight_fits (object_value ms) rest = omega (arith, weight_members_fit ms rest)
  weight_fits (array_value xs) rest = omega (arith, weight_items_fit xs rest)

  weight_members_fit :
      (ms : Members) (rest : List Token)
      → weight_members ms + 2 * length rest ≤ 2 * length (emit_members ms rest)
  weight_members_fit closed rest = omega arith
  weight_members_fit (member name j ms) rest =
      omega (arith, weight_fits j (emit_members ms rest), weight_members_fit ms rest)

  weight_items_fit :
      (xs : Items) (rest : List Token)
      → weight_items xs + 2 * length rest ≤ 2 * length (emit_items xs rest)
  weight_items_fit ended rest = omega arith
  weight_items_fit (item j xs) rest =
      omega (arith, weight_fits j (emit_items xs rest), weight_items_fit xs rest)
