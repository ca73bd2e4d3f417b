-- ===== src/Config/EnvironmentFile.antt =====
-- internal/config/envfile.go: the environment file of a deployment. The reader gives the whole
-- file: what it would cut off lies behind the size limit, where the file is refused anyway.
pub mod Accepted
pub mod RoundTrip
use Prim.Native.Char.{code}
use Prim.Native.String
use Prim.Native.String.{len}
use nexus_relay.Common.{
  ℕ, ◌+◌, ◌-◌, ◌*◌, String, Bool, true, false, not, ◌&&◌, ◌||◌, Option, none, some, List, [], ◌∷◌,
  ltb, nat_eq, if◌then◌else◌, lookup, insert, is_some, ◌==◌, Error, plain, at_line, Result, ok, err,
  ◌>>=◌, ◌>>◌, fail_if, or_fail,
}
use nexus_relay.Common.Text.{
  is_control, is_upper, is_digit, all_codes, any_code, has_prefix, trim_suffix, cut, split,
}
use nexus_relay.Config.Inventory.{is_known}
use nexus_relay.Config.Library.{
  Contents, utf8, not_utf8, OpenFile, Host, FileInfo, FileKind, regular,
}
use nexus_relay.Config.Setting.{Values}

abbrev pub maximum_environment_file_bytes : ℕ
maximum_environment_file_bytes = 1024 * 1024

-- bufio.Scanner's longest line: one byte of its buffer of 64 KiB is left for the line's end
abbrev pub maximum_line_bytes : ℕ
maximum_line_bytes = 64 * 1024 - 1

abbrev pub is_name_code : ℕ → Bool
is_name_code c = is_upper c || is_digit c || nat_eq c b'_'

-- ^[A-Z][A-Z0-9_]*$
unfoldable pub is_environment_name : String → Bool
is_environment_name String.[] = false
is_environment_name (String.◌∷◌ c s) = is_upper (code c) && all_codes is_name_code s

-- bufio.ScanLines: the texts between the line feeds, without an empty last one
abbrev pub drop_last_empty : List String → List String
drop_last_empty [] = []
drop_last_empty (line ∷ []) = if line == "" then [] else line ∷ []
drop_last_empty (line ∷ next ∷ lines) = line ∷ drop_last_empty (next ∷ lines)

unfoldable pub scan_lines : String → List String
unfolding split
scan_lines s = drop_last_empty (split b'\n' s)

-- a line that is neither empty nor a comment
unfoldable pub read_entry : ℕ → String → Values → Result Values
read_entry number line values = do
  fail_if (has_prefix line "export ") (at_line number "export syntax is unsupported" "")
  (name, value) ← or_fail (cut b'=' line) (at_line number "expected KEY=VALUE" "")
  fail_if (not (is_environment_name name)) (at_line number "invalid key" name)
  fail_if (not (is_known name)) (at_line number "unknown key" name)
  fail_if (is_some (lookup name values)) (at_line number "duplicate key" name)
  ok (insert name value values)

-- the body of the loop, behind the removal of carriage returns
unfoldable pub read_line : ℕ → String → Values → Result Values
read_line number line values = do
  fail_if (any_code is_control line) (at_line number "contains a control character" "")
  if line == "" || has_prefix line "#" then ok values else read_entry number line values

-- The loop. A carriage return is taken off by the scanner and another one by the program.
unfoldable pub read_lines : List String → ℕ → Values → Result Values
read_lines [] number values = ok values
read_lines (raw ∷ rest) number values = do
  fail_if (ltb maximum_line_bytes (len raw)) (plain "read environment file: malformed input")
  values' ← read_line (number + 1) (trim_suffix b'\r' (trim_suffix b'\r' raw)) values
  read_lines rest (number + 1) values'

unfoldable pub parse_environment_file : Option Contents → Result Values
unfolding scan_lines
parse_environment_file none = err (plain "read environment file: unreadable")
parse_environment_file (some (not_utf8 size)) =
    if ltb maximum_environment_file_bytes size
    then err (plain "read environment file: exceeds 1048576 bytes")
    else err (plain "read environment file: must contain valid UTF-8")
parse_environment_file (some (utf8 s)) =
    if ltb maximum_environment_file_bytes (len s)
    then err (plain "read environment file: exceeds 1048576 bytes")
    else read_lines (scan_lines s) 0 []

abbrev is_regular : Option FileInfo → Bool
is_regular none = false
is_regular (some info) = elim info.kind [ FileKind.regular ↦ true | _ ↦ false ]

unfoldable pub read_environment_file : Host → String → Result Values
read_environment_file host path = do
  fail_if (path == "") (plain "--env-file is required")
  file ← or_fail (host.open_file path) (plain "read environment file: unavailable")
  fail_if (not (is_regular file.info)) (plain "read environment file: must be a regular file")
  parse_environment_file file.contents
