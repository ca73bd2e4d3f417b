-- ===== src/Config/Setting.antt =====
-- internal/config/config.go: reading one setting. An `int` or a `Duration` that is accepted lies
-- between two bounds that are not negative, so it is a natural number here.
pub mod Laws
use nexus_relay.Common.{
  ℕ, ◌*◌, String, Bool, true, false, not, ◌&&◌, ◌||◌, Option, none, some, List, [], ◌∷◌, ltb,
  if◌then◌else◌, Map, lookup, insert, contains, ◌==◌, Error, setting, not_in, not_between,
  must_equal, Result, ok, err, ◌>>=◌, ◌>>◌, fail_if, or_fail,
}
use nexus_relay.Common.Text.{trim_space, cut}
use nexus_relay.Config.Library.{Library, ℤ, pos, negsuc}
use nexus_relay.Config.Number.{itoa, atoi}

abbrev pub Values : Type 0
Values = Map String

-- The loop over os.Environ: an entry without "=" is passed over, a later one replaces an earlier.
unfoldable pub add_entries : List String → Values → Values
unfolding insert
add_entries [] values = values
add_entries (entry ∷ entries) values = elim (cut b'=' entry) [
  | none ↦ add_entries entries values
  | some (name, given) ↦ add_entries entries (insert name given values)
]

unfoldable pub environment : List String → Values
unfolding add_entries
environment entries = add_entries entries []

abbrev pub millisecond : ℕ
millisecond = 1_000_000

abbrev pub second : ℕ
second = 1_000_000_000

abbrev pub minute : ℕ
minute = 60 * second

abbrev pub hour : ℕ
hour = 60 * minute

abbrev or_else : Option String → String → String
or_else none fallback = fallback
or_else (some raw) fallback = raw

unfoldable pub value : Values → String → String → String
unfolding lookup
value v name fallback = or_else (lookup name v) fallback

unfoldable pub required_path : Values → String → String → String
unfolding value
required_path v name fallback = value v name fallback

unfoldable pub clean_nonempty : String → String → Result (Unit {0})
unfolding fail_if
clean_nonempty name raw =
    fail_if (raw == "" || not (trim_space raw == raw))
      (setting name "must be non-empty and contain no surrounding whitespace")

unfoldable pub required_text : Values → String → Result String
unfolding lookup fail_if or_fail
required_text v name = do
  raw ← or_fail (lookup name v) (setting name "is required")
  fail_if (raw == "") (setting name "is required")
  clean_nonempty name raw
  ok raw

unfoldable pub one_of : String → List String → Bool
one_of value [] = false
one_of value (choice ∷ choices) = if value == choice then true else one_of value choices

-- `n < min || n > max` is an error; a negative number is below `min`
unfoldable pub in_range : ℕ → ℕ → Error → Option ℤ → Result ℕ
in_range lo hi e (some (pos n)) = if ltb n lo || ltb hi n then err e else ok n
in_range lo hi e (some (negsuc n)) = err e
in_range lo hi e none = err e

unfoldable pub duration : Library → Values → String → ℕ → ℕ → ℕ → Result ℕ
unfolding in_range value
duration go v name fallback lo hi =
    in_range lo hi (not_between name lo hi)
      (go.parse_duration (value v name (go.duration_string fallback)))

unfoldable pub integer : Values → String → ℕ → ℕ → ℕ → Result ℕ
unfolding in_range value
integer v name fallback lo hi =
    in_range lo hi (not_in name lo hi) (atoi (value v name (itoa fallback)))

-- strconv.ParseInt(…, 10, 64) reads what Atoi reads, on a 64-bit machine
unfoldable pub int64_value : Values → String → ℕ → ℕ → ℕ → Result ℕ
unfolding in_range value
int64_value v name fallback lo hi =
    in_range lo hi (not_in name lo hi) (atoi (value v name (itoa fallback)))

-- strconv.FormatBool
abbrev pub format_bool : Bool → String
format_bool true = "true"
format_bool false = "false"

read_bool : String → String → Result Bool
unfolding fail_if
read_bool name raw = do
  fail_if (not (raw == "true") && not (raw == "false")) (setting name "must be true or false")
  ok (raw == "true")

unfoldable pub boolean : Values → String → Bool → Result Bool
unfolding value read_bool
boolean v name fallback = read_bool name (value v name (format_bool fallback))

unfoldable pub validate_environment : String → Result (Unit {0})
unfolding fail_if one_of
validate_environment environment =
    fail_if (not (one_of environment ("development" ∷ "test" ∷ "production" ∷ [])))
      (setting "NEXUSRELAY_ENV" "must be development, test, or production")

unfoldable pub is_production_grade : String → Bool
is_production_grade environment = environment == "production"
