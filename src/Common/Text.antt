-- ===== src/Common/Text.antt =====
-- What the program uses of Go's strings, unicode, strconv and filepath, over texts of Unicode
-- characters: a Go string that is valid UTF-8.
pub mod Laws
use Prim.Native.Char.{Char, code}
use Prim.Native.String.{String, [], ◌∷◌}
use nexus_relay.Common.Tests.{ltb, nat_eq, within, if◌then◌else◌}
use Prim.Native.Nat.{ℕ, suc}
use mathlib.Core.Bool.{Bool, true, false, ◌&&◌, ◌||◌}
use mathlib.Core.Option.{Option, none, some}
use mathlib.Core.List.{List}

-- unicode.IsSpace
unfoldable pub is_space : ℕ → Bool
is_space c =
    within 9 13 c
    || nat_eq c 32
    || nat_eq c 0x85
    || nat_eq c 0xa0
    || nat_eq c 0x1680
    || within 0x2000 0x200a c
    || nat_eq c 0x2028
    || nat_eq c 0x2029
    || nat_eq c 0x202f
    || nat_eq c 0x205f
    || nat_eq c 0x3000

-- unicode.IsControl
unfoldable pub is_control : ℕ → Bool
is_control c = ltb c 32 || within 0x7f 0x9f c

abbrev pub is_digit : ℕ → Bool
is_digit c = within b'0' b'9' c

abbrev pub is_lower : ℕ → Bool
is_lower c = within b'a' b'z' c

abbrev pub is_upper : ℕ → Bool
is_upper c = within b'A' b'Z' c

abbrev pub is_alnum : ℕ → Bool
is_alnum c = is_lower c || is_upper c || is_digit c

abbrev pub all_codes : (ℕ → Bool) → String → Bool
all_codes p [] = true
all_codes p (c ∷ s) = p (code c) && all_codes p s

abbrev pub any_code : (ℕ → Bool) → String → Bool
any_code p [] = false
any_code p (c ∷ s) = p (code c) || any_code p s

-- the number of characters; of bytes, for an ASCII text
abbrev pub size : String → ℕ
size [] = 0
size (c ∷ s) = suc (size s)

unfoldable pub trim_left : String → String
trim_left [] = []
trim_left (c ∷ s) = let rest = trim_left s in if is_space (code c) then rest else c ∷ s

abbrev keep_cons : Bool → Char → String → String
keep_cons space c [] = if space then [] else c ∷ []
keep_cons space c (d ∷ s) = c ∷ d ∷ s

unfoldable pub trim_right : String → String
trim_right [] = []
trim_right (c ∷ s) = keep_cons (is_space (code c)) c (trim_right s)

-- strings.TrimSpace
unfoldable pub trim_space : String → String
unfolding trim_left trim_right is_space
trim_space s = trim_right (trim_left s)

-- strings.HasPrefix
abbrev pub has_prefix : String → String → Bool
has_prefix s [] = true
has_prefix [] (d ∷ t) = false
has_prefix (c ∷ s) (d ∷ t) = nat_eq (code c) (code d) && has_prefix s t

-- strings.TrimSuffix of one character
unfoldable pub trim_suffix : ℕ → String → String
trim_suffix suffix [] = []
trim_suffix suffix (c ∷ []) = if nat_eq (code c) suffix then [] else c ∷ []
trim_suffix suffix (c ∷ d ∷ s) = c ∷ trim_suffix suffix (d ∷ s)

-- strings.Cut at one character: the text before it and the text behind it
abbrev prepend : Char → Option (String × String) → Option (String × String)
prepend c none = none
prepend c (some (before, after)) = some (c ∷ before, after)

unfoldable pub cut : ℕ → String → Option (String × String)
cut sep [] = none
cut sep (c ∷ s) =
    let rest = cut sep s in if nat_eq (code c) sep then some ([], s) else prepend c rest

-- strings.Split at one character
abbrev onto_head : Char → List String → List String
onto_head c List.[] = List.◌∷◌ (c ∷ []) List.[]
onto_head c (List.◌∷◌ part parts) = List.◌∷◌ (c ∷ part) parts

unfoldable pub split : ℕ → String → List String
split sep [] = List.◌∷◌ [] List.[]
split sep (c ∷ s) =
    let rest = split sep s in if nat_eq (code c) sep then List.◌∷◌ [] rest else onto_head c rest
