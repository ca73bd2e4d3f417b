-- ===== src/Observability/Logging.antt =====
-- internal/observability/logging.go: the handler that takes secrets out of log records. How slog
-- resolves a value, and strings.ToLower, are parameters.
pub mod Laws
use Prim.Native.String
use nexus_relay.Common.{
  String, Bool, true, false, not, ◌&&◌, ◌||◌, Option, none, some, List, [], ◌∷◌, map, if◌then◌else◌,
  contains, ◌==◌, any, plain, Result, ok, err,
}
use nexus_relay.Common.Text.{has_prefix}

abbrev pub redacted_value : String
redacted_value = "[REDACTED]"

abbrev pub allowed_events : List String
allowed_events = "http.request.completed" ∷ "service.stopped" ∷ "telemetry.shutdown.failed" ∷ []

abbrev pub allowed_attributes : List String
allowed_attributes =
    "service" ∷ "version" ∷ "event" ∷ "request_id" ∷ "trace_id" ∷ "organization_id" ∷ "operation"
    ∷ "route" ∷ "status" ∷ "duration_ms" ∷ "error_category" ∷ "error_code" ∷ "error_message"
    ∷ "dependency" ∷ "outcome" ∷ []

abbrev pub forbidden_key_parts : List String
forbidden_key_parts =
    "authorization" ∷ "cookie" ∷ "password" ∷ "credential" ∷ "secret" ∷ "api_key" ∷ "apikey"
    ∷ "prompt" ∷ "completion" ∷ "tool_argument" ∷ "tool_result" ∷ "request_body" ∷ "response_body"
    ∷ "upstream_body" ∷ "image" ∷ "audio" ∷ "token" ∷ []

-- slog.Value, by kinds: `any` holds a Go value of any type, `scalar` the text of a string, a number,
-- a Boolean, a time or a duration
mutual
  pub data Value : Type 0 where
    scalar any_value : String → Value
    group : Attributes → Value

  pub data Attributes : Type 0 where
    no_more : Attributes
    attribute : String → Value → Attributes → Attributes

pub record Attr : Type 0 where
  pub key : String
  pub value : Value

-- slog.Value.Resolve and strings.ToLower
pub record Slog : Type 0 where
  pub resolve : Value → Value
  pub to_lower : String → String

-- strings.Contains
abbrev pub contains_text : String → String → Bool
contains_text String.[] part = has_prefix String.[] part
contains_text (String.◌∷◌ c s) part = has_prefix (String.◌∷◌ c s) part || contains_text s part

unfoldable pub contains_forbidden_key_part : String → Bool
contains_forbidden_key_part key = any (λ part. contains_text key part) forbidden_key_parts

abbrev pub is_any : Value → Bool
is_any (any_value _) = true
is_any _ = false

unfoldable pub redact_attribute : Slog → Attr → Attr
unfolding contains_forbidden_key_part
redact_attribute go attr =
    let value = go.resolve attr.value in
    let key = go.to_lower attr.key in
    if not (contains key allowed_attributes) || contains_forbidden_key_part key
    then record { key = attr.key; value = scalar redacted_value }
    else if is_any value
    then record { key = attr.key; value = scalar redacted_value }
    else record { key = attr.key; value = value }

-- a record, less its time and level, which are passed on
pub record Record : Type 0 where
  pub message : String
  pub attributes : List Attr

unfoldable pub handle : Slog → Record → Record
unfolding redact_attribute
handle go r = record {
  message = if contains r.message allowed_events then r.message else redacted_value;
  attributes = map (redact_attribute go) r.attributes;
}

unfoldable pub with_attrs : Slog → List Attr → List Attr
unfolding redact_attribute
with_attrs go attributes = map (redact_attribute go) attributes
