-- ===== src/Config/Json/Sound.antt =====
-- What the scan of internal/config/secret.go passes, of any tokens, is a value that the schema allows.
use nexus_relay.Common.{
  ℕ, zero, suc, ◌+◌, ◌*◌, ◌≡◌, ◌↔◌, ap, refl, String, true, false, some, List, [], ◌∷◌, contains,
  length, ok, ◌>>=◌, arith,
}
use nexus_relay.Common.Ensures.{
  Ensures, holds, fails, Ensures-ok, Ensures-map, ◌≫◌, fail_if-Ensures, or_fail-Ensures,
}
use nexus_relay.Config.Json.{
  Schema, Fields, leaf, object, array, field_schema, object_fields, array_element, Work, value,
  members, items, scan,
}
use nexus_relay.Config.Json.Accepts.{accepts, weight_enough}
use nexus_relay.Config.Json.Tree.{
  Json, Members, Items, text_value, scalar_value, object_value, array_value, closed, member, ended,
  item, emit, emit_members, emit_items, conforms, conforms_members, conforms_items,
}
use nexus_relay.Config.Library.{
  Token, open_object, close_object, open_array, close_array, text, scalar, broken,
}

-- The tokens in front of `rest` are those of what the work is at, and it is allowed.
abbrev pub Passes : Work → List Token → List Token → Type 0
Passes (value schema) tokens rest = (j : Json) × (tokens ≡ emit j rest) × (conforms schema j ≡ true)
Passes (members fields seen) tokens rest =
    (ms : Members) × (tokens ≡ emit_members ms rest) × (conforms_members fields seen ms ≡ true)
Passes (items schema) tokens rest =
    (xs : Items) × (tokens ≡ emit_items xs rest) × (conforms_items schema xs ≡ true)

module _ (rest : List Token) where
  pass_object :
      (schema : Schema) (fields : Fields) (tokens : List Token)
      → object_fields schema ≡ some fields
      → Passes (members fields []) tokens rest
      → Passes (value schema) (open_object ∷ tokens) rest
  unfolding emit conforms
  pass_object leaf fields tokens e p = cc
  pass_object (array s) fields tokens e p = cc
  pass_object (object fields) other tokens e (ms, t, c) =
      (object_value ms, ap (λ x. open_object ∷ x) t, ground arith)

  pass_array :
      (schema element : Schema) (tokens : List Token)
      → array_element schema ≡ some element
      → Passes (items element) tokens rest
      → Passes (value schema) (open_array ∷ tokens) rest
  unfolding emit conforms
  pass_array leaf element tokens e p = cc
  pass_array (object fields) element tokens e p = cc
  pass_array (array element) other tokens e (xs, t, c) =
      (array_value xs, ap (λ x. open_array ∷ x) t, ground arith)

  pass_member :
      (fields : Fields) (seen : List String) (name : String) (child : Schema)
      (tokens later : List Token)
      → contains name seen ≡ false
      → field_schema fields name ≡ some child
      → Passes (value child) tokens later
      → Passes (members fields (name ∷ seen)) later rest
      → Passes (members fields seen) (text name ∷ tokens) rest
  unfolding emit conforms
  pass_member fields seen name child tokens later fresh known (j, t, c) (ms, u, k) =
      (member name j ms, ap (λ x. text name ∷ x) (rw u at t), rw (fresh, known, c, k))

  pass_item :
      (schema : Schema) (tokens later : List Token)
      → Passes (value schema) tokens later
      → Passes (items schema) later rest
      → Passes (items schema) tokens rest
  unfolding emit conforms
  pass_item schema tokens later (j, t, c) (xs, u, k) = (item j xs, (rw u at t), rw (c, k))

item-Ensures :
    (n : ℕ) (schema : Schema) (tokens : List Token)
    → ((work : Work) (tokens : List Token)
        → Ensures (λ rest. Passes work tokens rest) (scan n work tokens))
    → Ensures
        (λ rest. Passes (items schema) tokens rest)
        (scan n (value schema) tokens >>= λ later. scan n (items schema) later)
item-Ensures n schema tokens shorter = shorter (value schema) tokens ≫ λ later p.
    Ensures-map (λ rest q. pass_item rest schema tokens later p q) (shorter (items schema) later)

scan-Ensures :
    (n : ℕ) (work : Work) (tokens : List Token)
    → Ensures (λ rest. Passes work tokens rest) (scan n work tokens)
unfolding scan emit conforms
scan-Ensures zero work tokens = fails
scan-Ensures (suc n) (value schema) [] = fails
scan-Ensures (suc n) (value schema) (text s ∷ rest) = holds (text_value s, refl, refl)
scan-Ensures (suc n) (value schema) (scalar ∷ rest) = holds (scalar_value, refl, refl)
scan-Ensures (suc n) (value schema) (open_object ∷ tokens) = or_fail-Ensures _ _ ≫ λ fields e.
    Ensures-map (λ rest p. pass_object rest schema fields tokens e p)
      (scan-Ensures n (members fields []) tokens)
scan-Ensures (suc n) (value schema) (open_array ∷ tokens) = or_fail-Ensures _ _ ≫ λ element e.
    Ensures-map (λ rest p. pass_array rest schema element tokens e p)
      (scan-Ensures n (items element) tokens)
scan-Ensures (suc n) (value schema) (close_object ∷ tokens) = fails
scan-Ensures (suc n) (value schema) (close_array ∷ tokens) = fails
scan-Ensures (suc n) (value schema) (broken ∷ tokens) = fails
scan-Ensures (suc n) (members fields seen) [] = fails
scan-Ensures (suc n) (members fields seen) (close_object ∷ rest) = holds (closed, refl, refl)
scan-Ensures (suc n) (members fields seen) (close_array ∷ rest) = fails
scan-Ensures (suc n) (members fields seen) (broken ∷ rest) = fails
scan-Ensures (suc n) (members fields seen) (open_object ∷ rest) = fails
scan-Ensures (suc n) (members fields seen) (open_array ∷ rest) = fails
scan-Ensures (suc n) (members fields seen) (scalar ∷ rest) = fails
scan-Ensures (suc n) (members fields seen) (text name ∷ tokens) = fail_if-Ensures _ _ ≫ λ _ fresh.
    or_fail-Ensures _ _ ≫ λ child known. scan-Ensures n (value child) tokens ≫ λ later p.
    Ensures-map (λ rest q. pass_member rest fields seen name child tokens later fresh known p q)
      (scan-Ensures n (members fields (name ∷ seen)) later)
scan-Ensures (suc n) (items schema) [] = fails
scan-Ensures (suc n) (items schema) (close_array ∷ rest) = holds (ended, refl, refl)
scan-Ensures (suc n) (items schema) (close_object ∷ rest) = fails
scan-Ensures (suc n) (items schema) (open_object ∷ tokens) =
    item-Ensures n schema (open_object ∷ tokens) (scan-Ensures n)
scan-Ensures (suc n) (items schema) (open_array ∷ tokens) =
    item-Ensures n schema (open_array ∷ tokens) (scan-Ensures n)
scan-Ensures (suc n) (items schema) (scalar ∷ tokens) =
    item-Ensures n schema (scalar ∷ tokens) (scan-Ensures n)
scan-Ensures (suc n) (items schema) (broken ∷ tokens) =
    item-Ensures n schema (broken ∷ tokens) (scan-Ensures n)
scan-Ensures (suc n) (items schema) (text s ∷ tokens) =
    item-Ensures n schema (text s ∷ tokens) (scan-Ensures n)

-- On the fuel that strictJSON gives it, the scan passes the whole of some tokens exactly when they are
-- those of one JSON value that the schema allows: objects and arrays only where it has them, no
-- unknown and no repeated field, at any depth.
pub scan_tokens_iff :
    (tokens : List Token) (schema : Schema)
    → (scan (2 * length tokens + 1) (value schema) tokens ≡ ok [])
      ↔ ((j : Json) × (tokens ≡ emit j []) × (conforms schema j ≡ true))
scan_tokens_iff tokens schema = (
  λ scanned.
      Ensures-ok (rw scanned at (scan-Ensures (2 * length tokens + 1) (value schema) tokens)),
  λ (j, e, good). rw e (accepts j schema _ [] (weight_enough j) good),
)
