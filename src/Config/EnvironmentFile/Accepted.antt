-- ===== src/Config/EnvironmentFile/Accepted.antt =====
-- What the settings of an accepted environment file are.
use Prim.Native.String.{len}
use nexus_relay.Common.{
  HasDistinctKeys, insert-All, insert-distinct, insert-append, append-nil, absent, lookup, ◌++◌,
  refl, sym, ◌∙◌, if◌then◌else◌, ℕ, String, true, false, ◌≡◌, ◌||◌, inl, inr, none, some, List, [],
  ◌∷◌, arith, All, Option, ok, Bool-cases, ◌==◌, ltb,
}
use nexus_relay.Common.Ensures.{
  Ensures, holds, fails, Ensures-ok, Ensures-map, ◌≫◌, fail_if-Ensures, or_fail-Ensures,
}
use nexus_relay.Common.Text.{is_control, any_code, has_prefix, cut, trim_suffix}
use nexus_relay.Common.Text.Laws.{cut-any_code}
use nexus_relay.Config.EnvironmentFile.{
  is_environment_name, read_entry, read_line, read_lines, parse_environment_file,
  maximum_environment_file_bytes, scan_lines,
}
use nexus_relay.Config.Inventory.{is_known}
use nexus_relay.Config.Library.{Contents, utf8, not_utf8}
use nexus_relay.Config.Setting.{Values}

abbrev pub IsEntry : String × String → Type 0
IsEntry (name, value) =
    (is_environment_name name ≡ true) × (is_known name ≡ true) × (any_code is_control value ≡ false)

pub record IsInventory (v : Values) : Type 0 where
  pub entries : All IsEntry v
  pub distinct : HasDistinctKeys v

-- The entries of these lines: the two parts of each that is neither empty nor a comment.
abbrev pub entries_of : List String → Values
entries_of [] = []
entries_of (raw ∷ lines) =
    let line = trim_suffix b'\r' (trim_suffix b'\r' raw) in
    let rest = entries_of lines in
    if line == "" || has_prefix line "#"
    then rest
    else elim (cut b'=' line) [ none ↦ rest | some entry ↦ entry ∷ rest ]

-- the lines of a file
abbrev pub lines_of : Option Contents → List String
lines_of (some (utf8 s)) = scan_lines s
lines_of _ = []

-- what a run of the loop adds to the settings
record IsGrown (lines : List String) (v grown : Values) : Type 0 where
  sound : IsInventory grown
  added : grown ≡ v ++ entries_of lines

-- the settings behind a line and the entries of the rest
abbrev entry_then : String → Values → Values
entry_then line rest =
    if line == "" || has_prefix line "#"
    then rest
    else elim (cut b'=' line) [ none ↦ rest | some entry ↦ entry ∷ rest ]

read_entry-Ensures :
    (number : ℕ) (line : String) (v : Values)
    → any_code is_control line ≡ false
    → IsInventory v
    → Ensures
        (λ grown.
          IsInventory grown
          × ((entry : String × String) × (cut b'=' line ≡ some entry)
              × ((later : Values) → grown ++ later ≡ v ++ entry ∷ later)))
        (read_entry number line v)
unfolding read_entry
read_entry-Ensures number line v printable h = fail_if-Ensures _ _ ≫ λ _ _.
    or_fail-Ensures _ _ ≫ λ parts found. fail_if-Ensures _ _ ≫ λ _ named.
    fail_if-Ensures _ _ ≫ λ _ known. fail_if-Ensures _ _ ≫ λ _ fresh.
    let missing = absent (lookup parts.0 v) fresh in
    holds (
      record {
        entries =
            insert-All IsEntry parts.0 parts.1 v
              (ground arith, ground arith, cut-any_code b'=' is_control line parts found printable)
              h.entries;
        distinct = insert-distinct parts.0 parts.1 v missing h.distinct;
      },
      (parts, found, λ later. insert-append parts.0 parts.1 v later missing),
    )

read_line-Ensures :
    (number : ℕ) (line : String) (v : Values)
    → IsInventory v
    → Ensures
        (λ grown.
          IsInventory grown × ((later : Values) → grown ++ later ≡ v ++ entry_then line later))
        (read_line number line v)
unfolding read_line
read_line-Ensures number line v h = fail_if-Ensures _ _ ≫ λ _ printable.
    elim (Bool-cases (line == "" || has_prefix line "#")) [
      | inl skipped ↦ rw skipped (holds (h, λ later. refl))
      | inr entry ↦ rw entry (
          Ensures-map
            (λ grown (sound, (parts, found, adds)). (sound, λ later. rw found (adds later)))
            (read_entry-Ensures number line v printable h))
    ]

read_lines-Ensures :
    (lines : List String) (number : ℕ) (v : Values)
    → IsInventory v
    → Ensures (IsGrown lines v) (read_lines lines number v)
unfolding read_lines
read_lines-Ensures [] number v h = holds (record { sound = h; added = sym (append-nil v) })
read_lines-Ensures (raw ∷ lines) number v h = fail_if-Ensures _ _ ≫ λ _ _.
    read_line-Ensures _ _ v h ≫ λ v' (h', adds).
    Ensures-map
      (λ grown (g : IsGrown lines v' grown). record {
        sound = g.sound;
        added = g.added ∙ adds (entries_of lines);
      })
      (read_lines-Ensures lines _ v' h')

contents-Ensures :
    (contents : Option Contents)
    → Ensures (IsGrown (lines_of contents) []) (parse_environment_file contents)
unfolding parse_environment_file
contents-Ensures none = fails
contents-Ensures (some (not_utf8 size)) =
    elim (Bool-cases (ltb maximum_environment_file_bytes size)) [
      | inl large ↦ rw large fails
      | inr small ↦ rw small fails
    ]
contents-Ensures (some (utf8 s)) = elim (Bool-cases (ltb maximum_environment_file_bytes (len s))) [
  | inl large ↦ rw large fails
  | inr small ↦ rw small (read_lines-Ensures _ 0 [] (record { entries = tt; distinct = tt }))
]

-- The settings of an accepted environment file are the entries of its lines, one for one and in their
-- order, but for the empty lines and the comments: each key is a documented setting and an environment
-- variable's name and stands in one line only, and no value holds a control character.
pub parse_environment_file-IsInventory :
    (contents : Option Contents) {v : Values}
    → parse_environment_file contents ≡ ok v
    → IsInventory v × (v ≡ entries_of (lines_of contents))
parse_environment_file-IsInventory contents h =
    let g = Ensures-ok (rw h at (contents-Ensures contents)) in (g.sound, g.added)
