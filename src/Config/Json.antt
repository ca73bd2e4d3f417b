-- ===== src/Config/Json.antt =====
-- internal/config/secret.go: scanJSONValue and strictJSON, over the tokens of json.Decoder. The scan
-- runs on fuel; twice the number of tokens and one more is enough.

pub mod Tree
pub mod Accepts
pub mod Sound
use nexus_relay.Common.{
  ℕ, zero, suc, ◌+◌, ◌*◌, String, Bool, true, false, not, Option, none, some, List, [], ◌∷◌, length,
  contains, ◌==◌, if◌then◌else◌, Error, plain, setting, reading, reading_because, Result, ok, err,
  ◌>>=◌, ◌>>◌, fail_if, or_fail,
}
use nexus_relay.Config.Library.{
  Library, Token, open_object, close_object, open_array, close_array, text, scalar, broken,
}

-- jsonSchema: nil, an objectSchema or an arraySchema
mutual
  pub data Schema : Type 0 where
    leaf : Schema
    object : Fields → Schema
    array : Schema → Schema

  pub data Fields : Type 0 where
    end : Fields
    field : String → Schema → Fields → Fields

abbrev pub field_schema : Fields → String → Option Schema
field_schema end name = none
field_schema (field key schema fields) name =
    if key == name then some schema else field_schema fields name

-- what the scan is at: a value, the members of an object behind some names, the items of an array
pub data Work : Type 0 where
  value : Schema → Work
  members : Fields → List String → Work
  items : Schema → Work

abbrev pub object_fields : Schema → Option Fields
object_fields (object fields) = some fields
object_fields _ = none

abbrev pub array_element : Schema → Option Schema
array_element (array schema) = some schema
array_element _ = none

unfoldable pub scan : ℕ → Work → List Token → Result (List Token)
scan zero work tokens = err (plain "out of fuel")
scan (suc n) (value schema) [] = err (plain "EOF")
scan (suc n) (value schema) (text s ∷ rest) = ok rest
scan (suc n) (value schema) (scalar ∷ rest) = ok rest
scan (suc n) (value schema) (open_object ∷ rest) = do
  fields ← or_fail (object_fields schema) (plain "unexpected object")
  scan n (members fields []) rest
scan (suc n) (value schema) (open_array ∷ rest) = do
  element ← or_fail (array_element schema) (plain "unexpected array")
  scan n (items element) rest
scan (suc n) (value schema) (close_object ∷ rest) = err (plain "unexpected delimiter")
scan (suc n) (value schema) (close_array ∷ rest) = err (plain "unexpected delimiter")
scan (suc n) (value schema) (broken ∷ rest) = err (plain "syntax error")
scan (suc n) (members fields seen) (close_object ∷ rest) = ok rest
scan (suc n) (members fields seen) (text name ∷ rest) = do
  fail_if (contains name seen) (setting "duplicate field" name)
  child ← or_fail (field_schema fields name) (setting "unknown field" name)
  later ← scan n (value child) rest
  scan n (members fields (name ∷ seen)) later
scan (suc n) (members fields seen) [] = err (plain "unterminated object")
scan (suc n) (members fields seen) (close_array ∷ rest) = err (plain "unterminated object")
scan (suc n) (members fields seen) (broken ∷ rest) = err (plain "syntax error")
scan (suc n) (members fields seen) (_ ∷ rest) = err (plain "object key is not a string")
scan (suc n) (items element) (close_array ∷ rest) = ok rest
scan (suc n) (items element) [] = err (plain "unterminated array")
scan (suc n) (items element) (close_object ∷ rest) = err (plain "unterminated array")
scan (suc n) (items element) (token ∷ rest) = do
  later ← scan n (value element) (token ∷ rest)
  scan n (items element) later

abbrev pub no_tokens : List Token → Bool
no_tokens [] = true
no_tokens _ = false

-- "read %s: invalid JSON: %v", with the error of the scan
abbrev pub invalid_json {ℓ} : {A : Type ℓ} → String → Result A → Result A
invalid_json name (ok a) = ok a
invalid_json name (err e) = err (reading_because name "invalid JSON" e)

-- strictJSON: the scan, the end of the text behind it, then the decoder's own reading
unfoldable pub strict_json {ℓ} :
    {A : Type ℓ} → Library → String → (String → Option (A × Bool)) → Schema → String → Result A
strict_json go name decode schema contents = do
  rest ←
      invalid_json name
        (scan (2 * length (go.json_tokens contents) + 1) (value schema) (go.json_tokens contents))
  fail_if (not (no_tokens rest)) (reading name "trailing JSON value")
  decoded ← or_fail (decode contents) (reading name "invalid JSON")
  fail_if (not decoded.1) (reading name "trailing JSON value")
  ok decoded.0
