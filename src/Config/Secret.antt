-- ===== src/Config/Secret.antt =====
-- internal/config/secret.go: secrets in files. The reader gives the whole file: what its limit would
-- cut off lies behind the size at which the file is refused.
pub mod Protected
pub mod Ring
pub mod Public
use Prim.Native.Char.{code}
use Prim.Native.String
use Prim.Native.String.{len}
use nexus_relay.Common.{
  ℕ, ◌*◌, ◌%◌, String, Bool, true, false, not, ◌&&◌, ◌||◌, Option, none, some, List, [], ◌∷◌, ltb,
  leb, nat_eq, if◌then◌else◌, ◌==◌, is_some, length, any, Map, lookup, insert, Error, plain,
  setting, reading, exceeds, Result, ok, err, ◌>>=◌, ◌>>◌, fail_if, or_fail,
}
use nexus_relay.Common.Text.{is_control, is_alnum, all_codes, any_code, size, trim_space}
use nexus_relay.Config.Library.{
  ℤ, pos, negsuc, Library, Bytes, Url, FileKind, FileInfo, symlink, regular, Contents, utf8,
  not_utf8, OpenFile, Host,
}

abbrev pub key_ring_maximum_bytes : ℕ
key_ring_maximum_bytes = 64 * 1024

abbrev pub is_kind : FileKind → FileKind → Bool
is_kind FileKind.regular FileKind.regular = true
is_kind FileKind.symlink FileKind.symlink = true
is_kind FileKind.directory FileKind.directory = true
is_kind FileKind.other FileKind.other = true
is_kind _ _ = false

-- os.SameFile of the opened file, if its Stat succeeds
abbrev pub same_file : FileInfo → Option FileInfo → Bool
same_file link none = false
same_file link (some opened) = nat_eq link.identity opened.identity

-- `mode & 0o077`: the lowest six of the permission bits
unfoldable pub open_protected_file : Host → String → String → Result OpenFile
open_protected_file host name path = do
  fail_if (path == "") (setting name "must name a secret file")
  link ← or_fail (host.lstat path) (reading name "secret file is unavailable")
  fail_if (is_kind link.kind symlink) (reading name "secret file must not be a symbolic link")
  fail_if (not (is_kind link.kind regular)) (reading name "secret file must be a regular file")
  fail_if (not host.is_windows && not (nat_eq (link.perm % 64) 0))
      (reading name "secret file must not be group/world accessible")
  file ← or_fail (host.open_file path) (reading name "secret file is unavailable")
  fail_if (not (same_file link file.info)) (reading name "secret file changed while opening")
  ok file

-- what an operation that has only an error returns
abbrev pub nothing_or : Option String → Result (Unit {0})
nothing_or none = ok tt
nothing_or (some e) = err (plain e)

unfoldable pub validate_protected_file : Host → String → String → Result (Unit {0})
validate_protected_file host name path = do
  file ← open_protected_file host name path
  nothing_or file.close_error

-- one "\r\n" or "\n" at the end is no part of the secret
unfoldable pub strip_line_end : String → String
strip_line_end String.[] = String.[]
strip_line_end (String.◌∷◌ c String.[]) =
    if nat_eq (code c) b'\n' then String.[] else String.◌∷◌ c String.[]
strip_line_end (String.◌∷◌ c (String.◌∷◌ d String.[])) =
    if nat_eq (code d) b'\n'
    then if nat_eq (code c) b'\r' then String.[] else String.◌∷◌ c String.[]
    else String.◌∷◌ c (String.◌∷◌ d String.[])
strip_line_end (String.◌∷◌ c (String.◌∷◌ d (String.◌∷◌ e s))) =
    String.◌∷◌ c (strip_line_end (String.◌∷◌ d (String.◌∷◌ e s)))

unfoldable pub bounded_text : String → ℕ → Contents → Result String
bounded_text name maximum (utf8 s) =
    if ltb maximum (len s) then err (exceeds name maximum) else ok s
bounded_text name maximum (not_utf8 n) =
    if ltb maximum n
    then err (exceeds name maximum)
    else err (reading name "secret file must contain valid UTF-8")

unfoldable pub read_secret_bytes : Host → String → String → ℕ → Result String
read_secret_bytes host name path maximum = do
  fail_if (name == "") (plain "secret setting name is required")
  fail_if (nat_eq maximum 0) (setting name "has an invalid maximum size")
  file ← open_protected_file host name path
  raw ← or_fail file.contents (reading name "secret file could not be read")
  whole ← bounded_text name maximum raw
  fail_if (strip_line_end whole == "") (reading name "secret file must not be empty")
  fail_if (not (trim_space (strip_line_end whole) == strip_line_end whole))
      (reading name "secret file contains unintended surrounding whitespace")
  ok (strip_line_end whole)

unfoldable pub read_simple_secret : Host → String → String → ℕ → Result String
read_simple_secret host name path maximum = do
  secret ← read_secret_bytes host name path maximum
  fail_if (any_code is_control secret) (reading name "secret contains a control character")
  ok secret

abbrev pub is_scheme_of : Url → List String → Bool
is_scheme_of url schemes = any (λ scheme. url.scheme == scheme) schemes

unfoldable pub read_uri_secret :
    Library → Host → String → String → ℕ → List String → Result (String × Url)
read_uri_secret go host name path maximum schemes = do
  secret ← read_simple_secret host name path maximum
  url ← or_fail (go.parse_url secret) (reading name "secret must contain one absolute URI")
  fail_if (url.scheme == "" || url.host == "" || not (url.fragment == ""))
      (reading name "secret must contain one absolute URI")
  fail_if (not (is_scheme_of url schemes)) (reading name "URI scheme is not allowed")
  ok (secret, url)

-- the canonical base64 text of 32 bytes
unfoldable pub decode_key : Library → String → String → Result Bytes
decode_key go name text = do
  decoded ←
      or_fail (go.decode_base64 text)
        (reading name "key must be canonical padded base64 for exactly 32 bytes")
  fail_if (not (nat_eq (length decoded) 32) || not (go.encode_base64 decoded == text))
      (reading name "key must be canonical padded base64 for exactly 32 bytes")
  ok decoded

unfoldable pub read_base64_key : Library → Host → String → String → ℕ → Result String
read_base64_key go host name path maximum = do
  secret ← read_simple_secret host name path maximum
  decoded ← decode_key go name secret
  ok secret

pub record KeyRing : Type 0 where
  pub active_key_id : String
  pub keys : Map Bytes

abbrev pub is_key_id_code : ℕ → Bool
is_key_id_code c = is_alnum c || nat_eq c b'.' || nat_eq c b'_' || nat_eq c b'-'

-- ^[A-Za-z0-9][A-Za-z0-9._-]{0,63}$
unfoldable pub is_key_id : String → Bool
is_key_id String.[] = false
is_key_id (String.◌∷◌ c s) = is_alnum (code c) && all_codes is_key_id_code s && leb (size s) 63

-- the loop over the entries: a key's id and its text
unfoldable pub add_keys : Library → String → List (String × String) → Map Bytes → Result (Map Bytes)
add_keys go name [] keys = ok keys
add_keys go name ((key_id, text) ∷ entries) keys = do
  fail_if (not (is_key_id key_id)) (reading name "key_id is invalid")
  fail_if (is_some (lookup key_id keys)) (reading name "duplicate key_id")
  key ← decode_key go name text
  add_keys go name entries (insert key_id key keys)

abbrev no_entries : List (String × String) → Bool
no_entries [] = true
no_entries _ = false

abbrev is_one : ℤ → Bool
is_one (pos n) = nat_eq n 1
is_one (negsuc n) = false

unfoldable pub validate_ring :
    Library → String → ℤ → String → List (String × String) → Result KeyRing
validate_ring go name version active entries = do
  fail_if (not (is_one version)) (reading name "version must be 1")
  fail_if (not (is_key_id active)) (reading name "active_key_id is invalid")
  fail_if (no_entries entries) (reading name "keys must not be empty")
  keys ← add_keys go name entries []
  fail_if (not (is_some (lookup active keys))) (reading name "active_key_id must name one key")
  ok (record { active_key_id = active; keys = keys })
