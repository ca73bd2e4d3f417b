-- ===== src/Observability/Logging/Laws.antt =====
-- What reaches the log through the handler of internal/observability/logging.go.
use nexus_relay.Common.{
  ◌≡◌, ◌⊎◌, inl, inr, refl, String, Bool, true, false, not, ◌||◌, if◌then◌else◌, List, [], ◌∷◌, map,
  contains, All, arith, Bool-cases,
}
use nexus_relay.Observability.Logging.{
  Slog, Attr, Record, scalar, redacted_value, allowed_events, allowed_attributes,
  contains_forbidden_key_part, is_any, redact_attribute, handle, with_attrs,
}

-- The attribute was redacted, or its key is allowed and not forbidden and its value of a known kind.
abbrev pub IsClean : Slog → Attr → Type 0
IsClean go attr =
    (attr.value ≡ scalar redacted_value)
    ⊎ ((contains (go.to_lower attr.key) allowed_attributes ≡ true)
        × (contains_forbidden_key_part (go.to_lower attr.key) ≡ false)
        × (is_any attr.value ≡ false))

key_clean : (a b : Bool) → (not a || b) ≡ false → (a ≡ true) × (b ≡ false)
key_clean a b h = ground arith

redact_attribute-IsClean : (go : Slog) (attr : Attr) → IsClean go (redact_attribute go attr)
unfolding redact_attribute
redact_attribute-IsClean go attr =
    let key = go.to_lower attr.key in
    let forbidden = not (contains key allowed_attributes) || contains_forbidden_key_part key in
    elim (Bool-cases forbidden) [
      | inl secret ↦ rw secret (inl refl)
      | inr open_key ↦ elim (Bool-cases (is_any (go.resolve attr.value))) [
        | inl kind ↦ rw (open_key, kind) (inl refl)
        | inr kind ↦
            rw (open_key, kind) (inr ((key_clean _ _ open_key).0, (key_clean _ _ open_key).1, kind))
      ]
    ]

map-IsClean :
    (go : Slog) (attributes : List Attr) → All (IsClean go) (map (redact_attribute go) attributes)
map-IsClean go [] = tt
map-IsClean go (attr ∷ attributes) = (redact_attribute-IsClean go attr, map-IsClean go attributes)

message_clean :
    (message : String)
    → let passed = if contains message allowed_events then message else redacted_value in
      (passed ≡ redacted_value) ⊎ (contains passed allowed_events ≡ true)
message_clean message = elim (Bool-cases (contains message allowed_events)) [
  | inl known ↦ rw known (inr known)
  | inr unknown ↦ rw unknown (inl refl)
]

-- A record that the handler passes on has an allowed message or none, and each attribute at its top
-- level, of the record or of the logger, is redacted or has an allowed key and no value of kind Any.
pub handle-IsClean :
    (go : Slog) (r : Record) (attributes : List Attr)
    → (((handle go r).message ≡ redacted_value)
        ⊎ (contains (handle go r).message allowed_events ≡ true))
      × All (IsClean go) (handle go r).attributes
      × All (IsClean go) (with_attrs go attributes)
unfolding handle with_attrs
handle-IsClean go r attributes =
    (message_clean r.message, map-IsClean go r.attributes, map-IsClean go attributes)
