-- ===== src/Config/Setting/Laws.antt =====
-- What the readers of one setting accept.
use nexus_relay.Common.{
  refl, ℕ, ◌≤◌, ◌<◌, ◌^◌, String, Bool, true, false, ◌≡◌, ◌↔◌, ◌≢◌, Option, none, some, arith,
  lookup, Error, ok, IsAbsent, contains, List, eq_iff, Option-cases, inl, inr,
}
use nexus_relay.Common.Text.{trim_space}
use nexus_relay.Common.Ensures.{Ensures, Ensures-of}
use nexus_relay.Common.Succeeds.{Succeeds, Succeeds-of}
use nexus_relay.Config.Library.{Library, ReadsDurations, ℤ, pos, negsuc}
use nexus_relay.Config.Number.{itoa, atoi, atoi-itoa}
use nexus_relay.Config.Setting.{
  Values, value, clean_nonempty, required_text, in_range, duration, integer, int64_value, boolean,
  read_bool, format_bool,
}

in_range_bounds :
    (lo hi : ℕ) (e : Error) (o : Option ℤ) {n : ℕ}
    → in_range lo hi e o ≡ ok n
    → (o ≡ some (pos n)) × (lo ≤ n) × (n ≤ hi)
unfolding in_range
in_range_bounds lo hi e none h = ground arith
in_range_bounds lo hi e (some (pos n)) h = ground arith
in_range_bounds lo hi e (some (negsuc n)) h = ground arith

abbrev pub IsBetween : ℕ → ℕ → ℕ → Type 0
IsBetween lo hi n = (lo ≤ n) × (n ≤ hi)

pub integer-IsBetween :
    (v : Values) (name : String) (fallback lo hi : ℕ)
    → Ensures (IsBetween lo hi) (integer v name fallback lo hi)
unfolding integer
integer-IsBetween v name fallback lo hi =
    Ensures-of _ λ n h. let (_, above, below) = in_range_bounds lo hi _ _ h in (above, below)

pub int64_value-IsBetween :
    (v : Values) (name : String) (fallback lo hi : ℕ)
    → Ensures (IsBetween lo hi) (int64_value v name fallback lo hi)
unfolding int64_value
int64_value-IsBetween v name fallback lo hi =
    Ensures-of _ λ n h. let (_, above, below) = in_range_bounds lo hi _ _ h in (above, below)

pub duration-IsBetween :
    (go : Library) (v : Values) (name : String) (fallback lo hi : ℕ)
    → Ensures (IsBetween lo hi) (duration go v name fallback lo hi)
unfolding duration
duration-IsBetween go v name fallback lo hi =
    Ensures-of _ λ n h. let (_, above, below) = in_range_bounds lo hi _ _ h in (above, below)

-- An integer setting is accepted as `n` exactly when its text, or the printed default where the
-- setting is missing, reads as `n` and `n` lies between the bounds.
pub integer_iff :
    (v : Values) (name : String) (fallback lo hi n : ℕ)
    → (integer v name fallback lo hi ≡ ok n)
      ↔ ((atoi (value v name (itoa fallback)) ≡ some (pos n)) × (lo ≤ n) × (n ≤ hi))
unfolding integer in_range
integer_iff v name fallback lo hi n =
    (λ h. in_range_bounds lo hi _ _ h, λ (read, above, below). ground arith)

-- A missing integer setting gives its default, if the default is within the bounds and an int64.
pub integer_default :
    (v : Values) (name : String) (fallback lo hi : ℕ)
    → lookup name v ≡ none
    → (lo ≤ fallback) × (fallback ≤ hi) × (hi < 2 ^ 63)
    → integer v name fallback lo hi ≡ ok fallback
unfolding value
integer_default v name fallback lo hi missing (above, below, small) =
    (integer_iff v name fallback lo hi fallback).1
      (rw missing (atoi-itoa fallback (omega arith)), above, below)

-- So does a missing size.
pub int64_value_default :
    (v : Values) (name : String) (fallback lo hi : ℕ)
    → lookup name v ≡ none
    → (lo ≤ fallback) × (fallback ≤ hi) × (hi < 2 ^ 63)
    → int64_value v name fallback lo hi ≡ ok fallback
unfolding value int64_value in_range
int64_value_default v name fallback lo hi missing (above, below, small) =
    rw (missing, atoi-itoa fallback (omega arith)) (ground arith)

-- So does a missing duration, where durations are read back as they are printed.
pub duration_default :
    {go : Library}
    → ReadsDurations go
    → (v : Values) (name : String) (fallback lo hi : ℕ) → lookup name v ≡ none
    → (lo ≤ fallback) × (fallback ≤ hi)
    → duration go v name fallback lo hi ≡ ok fallback
unfolding value duration in_range
duration_default r v name fallback lo hi missing (above, below) =
    rw (missing, r.read_back fallback) (ground arith)

-- The same for settings that are known to be missing by name.
module _ {v : Values} {names : List String} (a : IsAbsent v names) where
  pub absent_integer :
      (name : String) {fallback lo hi : ℕ}
      → contains name names ≡ true
      → (lo ≤ fallback) × (fallback ≤ hi) × (hi < 2 ^ 63)
      → Succeeds (λ n. n ≡ fallback) (integer v name fallback lo hi)
  absent_integer name listed bounds =
      Succeeds-of (integer_default v name _ _ _ (a.absent name listed) bounds) refl

  pub absent_int64_value :
      (name : String) {fallback lo hi : ℕ}
      → contains name names ≡ true
      → (lo ≤ fallback) × (fallback ≤ hi) × (hi < 2 ^ 63)
      → Succeeds (λ n. n ≡ fallback) (int64_value v name fallback lo hi)
  absent_int64_value name listed bounds =
      Succeeds-of (int64_value_default v name _ _ _ (a.absent name listed) bounds) refl

  pub absent_duration :
      {go : Library}
      → ReadsDurations go
      → (name : String) {fallback lo hi : ℕ} → contains name names ≡ true
      → (lo ≤ fallback) × (fallback ≤ hi)
      → Succeeds (λ n. n ≡ fallback) (duration go v name fallback lo hi)
  absent_duration r name listed bounds =
      Succeeds-of (duration_default r v name _ _ _ (a.absent name listed) bounds) refl

-- A text is clean exactly when it is not empty and trimming leaves it as it is.
pub clean_nonempty_iff :
    (name raw : String) → (clean_nonempty name raw ≡ ok tt) ↔ ((raw ≢ "") × (trim_space raw ≡ raw))
unfolding clean_nonempty
clean_nonempty_iff name raw = ground (arith, eq_iff raw "", eq_iff (trim_space raw) raw)

pub clean_nonempty-Ensures :
    (name raw : String)
    → Ensures (λ _. (raw ≢ "") × (trim_space raw ≡ raw)) (clean_nonempty name raw)
clean_nonempty-Ensures name raw = Ensures-of _ λ _ h. (clean_nonempty_iff name raw).0 h

read_bool_iff : (name raw : String) (b : Bool) → (read_bool name raw ≡ ok b) ↔ (raw ≡ format_bool b)
unfolding read_bool
read_bool_iff name raw true = ground (arith, eq_iff raw "true", eq_iff raw "false")
read_bool_iff name raw false =
    ground (arith, eq_iff raw "true", eq_iff raw "false", eq_iff "true" "false")

-- A boolean setting is accepted only as the text "true" or "false", and read as that.
pub boolean_iff :
    (v : Values) (name : String) (fallback b : Bool)
    → (boolean v name fallback ≡ ok b) ↔ (value v name (format_bool fallback) ≡ format_bool b)
unfolding boolean value
boolean_iff v name fallback b = read_bool_iff name (value v name (format_bool fallback)) b

pub required_text_iff :
    (v : Values) (name raw : String)
    → (required_text v name ≡ ok raw)
      ↔ ((lookup name v ≡ some raw) × (raw ≢ "") × (trim_space raw ≡ raw))
unfolding required_text clean_nonempty
required_text_iff v name raw = elim (Option-cases (lookup name v)) [
  | inl missing ↦ rw missing (ground arith)
  | inr (text, found) ↦ rw found (ground (arith, eq_iff text "", eq_iff (trim_space text) text))
]
