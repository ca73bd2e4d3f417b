-- ===== src/Config/Secret/Protected.antt =====
-- What a secret of internal/config/secret.go is that was read from a file.
use Prim.Native.String.{len}
use nexus_relay.Common.{
  ℕ, ◌%◌, ◌≤◌, ◌≡◌, ◌≢◌, ◌⊎◌, inl, inr, refl, String, Bool, true, false, not, ◌&&◌, some, ◌==◌, ltb,
  nat_eq, arith, ok, eq_iff, Bool-cases, ltb→le,
}
use nexus_relay.Common.Ensures.{
  Ensures, holds, fails, Ensures-ok, ◌≫◌, fail_if-Ensures, or_fail-Ensures,
}
use nexus_relay.Common.Text.{is_control, any_code, trim_space}
use nexus_relay.Config.Library.{
  FileInfo, FileKind, regular, OpenFile, Host, Contents, utf8, not_utf8,
}
use nexus_relay.Config.Secret.{
  is_kind, same_file, open_protected_file, strip_line_end, bounded_text, read_secret_bytes,
  read_simple_secret,
}

-- The file at a path that was opened: a regular file, no symbolic link, without access for group and
-- others where the system has such bits, and the same file before and after it was opened.
pub record IsProtected (host : Host) (path : String) (file : OpenFile) : Type 0 where
  pub link : FileInfo
  pub found : host.lstat path ≡ some link
  pub opened : host.open_file path ≡ some file
  pub is_regular : link.kind ≡ regular
  pub private : (host.is_windows ≡ true) ⊎ (link.perm % 64 ≡ 0)
  pub same : same_file link file.info ≡ true

kind_regular : (k : FileKind) → not (is_kind k regular) ≡ false → k ≡ regular
kind_regular FileKind.regular h = refl
kind_regular FileKind.symlink h = cc
kind_regular FileKind.directory h = cc
kind_regular FileKind.other h = cc

private_bits :
    (windows : Bool) (bits : ℕ)
    → (not windows && not (nat_eq bits 0)) ≡ false
    → (windows ≡ true) ⊎ (bits ≡ 0)
private_bits true bits h = inl refl
private_bits false bits h = ground arith

pub open_protected_file-Ensures :
    (host : Host) (name path : String)
    → Ensures (IsProtected host path) (open_protected_file host name path)
unfolding open_protected_file
open_protected_file-Ensures host name path = fail_if-Ensures _ _ ≫ λ _ _.
    or_fail-Ensures _ _ ≫ λ link found. fail_if-Ensures _ _ ≫ λ _ _. fail_if-Ensures _ _ ≫ λ _ kind.
    fail_if-Ensures _ _ ≫ λ _ bits. or_fail-Ensures _ _ ≫ λ file opened.
    fail_if-Ensures _ _ ≫ λ _ same. holds (record {
      link = link;
      found = found;
      opened = opened;
      is_regular = kind_regular link.kind kind;
      private = private_bits host.is_windows (link.perm % 64) bits;
      same = ground arith;
    })

-- A secret that was read from a file.
pub record IsSecretOf (host : Host) (path : String) (maximum : ℕ) (secret : String) : Type 0 where
  pub file : OpenFile
  pub protected : IsProtected host path file
  pub whole : String
  pub contents : file.contents ≡ some (utf8 whole)
  pub bounded : len whole ≤ maximum
  pub stripped : secret ≡ strip_line_end whole
  pub nonempty : secret ≢ ""
  pub trimmed : trim_space secret ≡ secret

bounded_text-Ensures :
    (name : String) (maximum : ℕ) (raw : Contents)
    → Ensures (λ s. (raw ≡ utf8 s) × (len s ≤ maximum)) (bounded_text name maximum raw)
unfolding bounded_text
bounded_text-Ensures name maximum (utf8 s) = elim (Bool-cases (ltb maximum (len s))) [
  | inl large ↦ rw large fails
  | inr fits ↦ rw fits (holds (refl, ltb→le maximum (len s) fits))
]
bounded_text-Ensures name maximum (not_utf8 n) = elim (Bool-cases (ltb maximum n)) [
  | inl large ↦ rw large fails
  | inr fits ↦ rw fits fails
]

not_empty : (s : String) → (s == "") ≡ false → s ≢ ""
not_empty s h e = ground (arith, eq_iff s "")

is_trimmed : (s t : String) → not (s == t) ≡ false → s ≡ t
is_trimmed s t h = ground (arith, eq_iff s t)

pub read_secret_bytes-Ensures :
    (host : Host) (name path : String) (maximum : ℕ)
    → Ensures (IsSecretOf host path maximum) (read_secret_bytes host name path maximum)
unfolding read_secret_bytes
read_secret_bytes-Ensures host name path maximum = fail_if-Ensures _ _ ≫ λ _ _.
    fail_if-Ensures _ _ ≫ λ _ _. open_protected_file-Ensures host name path ≫ λ file protected.
    or_fail-Ensures _ _ ≫ λ raw read. bounded_text-Ensures name maximum raw ≫ λ whole text.
    fail_if-Ensures _ _ ≫ λ _ filled. fail_if-Ensures _ _ ≫ λ _ trimmed. holds (record {
      file = file;
      protected = protected;
      whole = whole;
      contents = rw text.0 at read;
      bounded = text.1;
      stripped = refl;
      nonempty = not_empty _ filled;
      trimmed = is_trimmed _ _ trimmed;
    })

pub read_simple_secret-Ensures :
    (host : Host) (name path : String) (maximum : ℕ)
    → Ensures
        (λ s. IsSecretOf host path maximum s × (any_code is_control s ≡ false))
        (read_simple_secret host name path maximum)
unfolding read_simple_secret
read_simple_secret-Ensures host name path maximum =
    read_secret_bytes-Ensures host name path maximum ≫ λ secret h.
    fail_if-Ensures _ _ ≫ λ _ printable. holds (h, printable)

-- A secret that is accepted comes from a regular file that is no symbolic link, that neither group
-- nor others can access (but on Windows), and that was not replaced while it was opened; the file is
-- UTF-8 and within the limit, and the secret is its text less one line end, not empty, without
-- surrounding white space and without control characters.
pub read_simple_secret-IsSecretOf :
    (host : Host) (name path : String) (maximum : ℕ) {secret : String}
    → read_simple_secret host name path maximum ≡ ok secret
    → IsSecretOf host path maximum secret × (any_code is_control secret ≡ false)
read_simple_secret-IsSecretOf host name path maximum h =
    Ensures-ok (rw h at (read_simple_secret-Ensures host name path maximum))
