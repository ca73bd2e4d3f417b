-- ===== src/Config/EnvironmentFile/RoundTrip.antt =====
-- An environment file that is written from settings, one KEY=VALUE line each, is read back.
use Prim.Native.String.{String, [], ◌∷◌, ◌++◌, len}
use text.Mathlib.TextLemmas.{cons-append, cons≢nil}
use mathlib.Core.List
use mathlib.Core.List.{List, append-nil, append_assoc}
use nexus_relay.Common.{
  HasDistinctKeys, ℕ, ◌+◌, ◌≤◌, true, false, ◌≡◌, ◌||◌, refl, ap, ◌∙◌, none, some, arith, lookup,
  insert, eq_iff, All, Result, ok, ◌==◌, ltb, nat_eq, map, fail_if, or_fail,
}
use nexus_relay.Common.Text.{is_control, all_codes, any_code, has_prefix, split, trim_suffix}
use nexus_relay.Common.Text.Laws.{
  Lacks, cut-append, split-append, trim_suffix_of_Lacks, any_code-append, any_code_of_all_codes,
}
use nexus_relay.Config.EnvironmentFile.{
  is_environment_name, is_name_code, scan_lines, drop_last_empty, read_entry, read_line, read_lines,
  parse_environment_file, maximum_line_bytes, maximum_environment_file_bytes,
}
use nexus_relay.Config.EnvironmentFile.Accepted.{IsEntry, IsInventory}
use nexus_relay.Config.Library.{utf8}
use nexus_relay.Config.Setting.{Values}

abbrev pub entry_line : String × String → String
entry_line (name, value) = name ++ ("=" ∷ value)

abbrev pub render : Values → String
render List.[] = ""
render (List.◌∷◌ entry v) = entry_line entry ++ ("\n" ∷ render v)

-- The characters of a name are neither control characters nor "=".
name_code-control : (c : ℕ) → is_name_code c ≡ true → is_control c ≡ false
unfolding is_control
name_code-control c h = ground arith

name_code-equals : (c : ℕ) → is_name_code c ≡ true → nat_eq c b'=' ≡ false
name_code-equals c h = ground arith

name_codes : (name : String) → is_environment_name name ≡ true → all_codes is_name_code name ≡ true
unfolding is_environment_name
name_codes [] h = cc
name_codes (c ∷ s) h = ground arith

name-Lacks : (name : String) → is_environment_name name ≡ true → Lacks b'=' name
name-Lacks name h = any_code_of_all_codes is_name_code _ name_code-equals name (name_codes name h)

line_printable :
    (entry : String × String) → IsEntry entry → any_code is_control (entry_line entry) ≡ false
unfolding is_control
line_printable (name, value) (named, _, printable) = rw any_code-append (
    rw
      (any_code_of_all_codes is_name_code is_control name_code-control name (name_codes name named))
      printable)

-- a text without control characters has none of them in particular
Lacks-control :
    (sep : ℕ) (s : String) → is_control sep ≡ true → any_code is_control s ≡ false → Lacks sep s
Lacks-control sep [] c h = refl
Lacks-control sep (d ∷ s) c h = ground (arith, Lacks-control sep s)

line-Lacks :
    (sep : ℕ) (entry : String × String)
    → is_control sep ≡ true
    → IsEntry entry
    → Lacks sep (entry_line entry)
line-Lacks sep entry c e = Lacks-control sep (entry_line entry) c (line_printable entry e)

-- A line of an entry is none that the loop skips.
line_kept :
    (name value : String)
    → is_environment_name name ≡ true
    → ((entry_line (name, value) == "" || has_prefix (entry_line (name, value)) "#") ≡ false)
      × (has_prefix (entry_line (name, value)) "export " ≡ false)
unfolding is_environment_name
line_kept [] value h = cc
line_kept (c ∷ s) value h = rw cons-append (
    ground
      (arith, eq_iff (c ∷ (s ++ ("=" ∷ value))) "", cons≢nil {x = c} {xs = s ++ ("=" ∷ value)}))

-- A setting that is not there yet is added at the end.
insert_fresh :
    (name value : String) (v : Values)
    → lookup name v ≡ none
    → insert name value v ≡ List.◌++◌ v (List.◌∷◌ (name, value) List.[])
unfolding insert lookup
insert_fresh name value List.[] h = refl
insert_fresh name value (List.◌∷◌ (k, x) v) h = ground (arith, insert_fresh name value v)

lookup-append :
    (k name value : String) (v w : Values)
    → lookup k (List.◌++◌ v (List.◌∷◌ (name, value) w)) ≡ none
    → (lookup k v ≡ none) × ((name == k) ≡ false)
unfolding lookup
lookup-append k name value List.[] w h = ground arith
lookup-append k name value (List.◌∷◌ (j, x) v) w h = ground (arith, lookup-append k name value v w)

distinct-append :
    (name value : String) (v w : Values)
    → HasDistinctKeys (List.◌++◌ v (List.◌∷◌ (name, value) w))
    → lookup name v ≡ none
unfolding lookup
distinct-append name value List.[] w h = refl
distinct-append name value (List.◌∷◌ (k, x) v) w (here, h) = ground (
  arith,
  eq_iff k name,
  eq_iff name k,
  lookup-append k name value v w here,
  distinct-append name value v w h,
)

-- A line is added at the end, if its name is new.
line_read :
    (number : ℕ) (name value : String) (v : Values)
    → IsEntry (name, value)
    → lookup name v ≡ none
    → read_line number (entry_line (name, value)) v
      ≡ ok (List.◌++◌ v (List.◌∷◌ (name, value) List.[]))
unfolding read_line read_entry fail_if or_fail
line_read number name value v e fresh = rw (
  line_printable (name, value) e,
  (line_kept name value e.0).0,
  (line_kept name value e.0).1,
  cut-append b'=' name "=" value (name-Lacks name e.0) refl,
  e.0,
  e.1,
  fresh,
  insert_fresh name value v fresh,
)

fits_file :
    (n : ℕ) → n ≤ maximum_environment_file_bytes → ltb maximum_environment_file_bytes n ≡ false
fits_file n h = ground arith

fits_line : (n : ℕ) → n ≤ maximum_line_bytes → ltb maximum_line_bytes n ≡ false
fits_line n h = ground arith

line_trimmed :
    (entry : String × String)
    → IsEntry entry
    → trim_suffix b'\r' (trim_suffix b'\r' (entry_line entry)) ≡ entry_line entry
unfolding is_control
line_trimmed entry e =
    let trimmed = trim_suffix_of_Lacks b'\r' (entry_line entry) (line-Lacks b'\r' entry refl e) in
    rw (trimmed, trimmed)

lines_read :
    (w v : Values) (number : ℕ)
    → All IsEntry w
    → HasDistinctKeys (List.◌++◌ v w)
    → All (λ entry. len (entry_line entry) ≤ maximum_line_bytes) w
    → read_lines (map entry_line w) number v ≡ ok (List.◌++◌ v w)
unfolding read_lines fail_if
lines_read List.[] v number e d short = rw append-nil refl
lines_read (List.◌∷◌ (name, value) w) v number (here, e) d (fits, short) =
    let added = List.◌∷◌ (name, value) List.[] in
    let later = lines_read w (List.◌++◌ v added) (number + 1) e (rw append_assoc d) short in
    rw
      (
        fits_line (len (entry_line (name, value))) fits,
        line_trimmed (name, value) here,
        line_read (number + 1) name value v here (distinct-append name value v w d),
      )
      (later ∙ ap {B = Result Values} ok (append_assoc v added w))

split-render :
    (v : Values)
    → All IsEntry v
    → split b'\n' (render v) ≡ List.◌++◌ (map entry_line v) (List.◌∷◌ "" List.[])
unfolding split is_control
split-render List.[] e = refl
split-render (List.◌∷◌ entry v) (here, e) = rw (
  split-append b'\n' (entry_line entry) "\n" (render v) (line-Lacks b'\n' entry refl here) refl,
  split-render v e,
)

lines_kept : (lines : List String) → drop_last_empty (List.◌++◌ lines (List.◌∷◌ "" List.[])) ≡ lines
lines_kept List.[] = refl
lines_kept (List.◌∷◌ line List.[]) = refl
lines_kept (List.◌∷◌ line (List.◌∷◌ next lines)) =
    ap {B = List String} (λ rest. List.◌∷◌ line rest) (lines_kept (List.◌∷◌ next lines))

-- Settings with documented names, each once, without control characters, that fit the limits of a
-- line and of the file are read back from the file that lists them as KEY=VALUE lines.
pub parse_environment_file-render :
    (v : Values)
    → IsInventory v
    → All (λ entry. len (entry_line entry) ≤ maximum_line_bytes) v
    → len (render v) ≤ maximum_environment_file_bytes
    → parse_environment_file (some (utf8 (render v))) ≡ ok v
unfolding parse_environment_file scan_lines
parse_environment_file-render v h short fits =
    rw (fits_file (len (render v)) fits, split-render v h.entries, lines_kept (map entry_line v))
      (lines_read v List.[] 0 h.entries h.distinct short)
