-- ===== src/Config/Processes/Owner.antt =====
-- What the configuration of the bootstrap command of internal/config/config.go is that was accepted.
use Prim.Native.Char.{code}
use nexus_relay.Common.{
  ℕ, ◌≤◌, ◌*◌, ◌≡◌, ◌≢◌, ◌↔◌, String, Bool, true, false, ◌||◌, some, nat_eq, ok, arith, lookup,
  eq_iff, Option, ◌==◌, not,
}
use nexus_relay.Common.Ensures.{
  Ensures, holds, Ensures-ok, Ensures-of, Ensures-trivial, ◌≫◌, fail_if-Ensures, or_fail-Ensures,
}
use nexus_relay.Common.Text.{is_lower, is_digit, size, all_codes, any_code, is_control, trim_space}
use nexus_relay.Config.Connection.{control_plane_database_settings}
use nexus_relay.Config.Connection.Laws.{IsDatabase, parse_database-Ensures}
use nexus_relay.Config.Inventory.{bootstrap}
use nexus_relay.Config.Library.{Library, Host}
use nexus_relay.Config.Policy.Password.Bounds.{IsPasswordPolicy, password-Ensures}
use nexus_relay.Config.Preflight.{preflight}
use nexus_relay.Config.Processes.{Bootstrap, parse_bootstrap, is_slug, is_slug_end}
use nexus_relay.Config.Secret.Protected.{IsSecretOf, read_simple_secret-Ensures}
use nexus_relay.Config.Service.{parse_shared, parse_logging}
use nexus_relay.Config.Setting.{Values, required_path, required_text}
use nexus_relay.Config.Setting.Laws.{required_text_iff}

abbrev pub is_slug_code : ℕ → Bool
is_slug_code c = is_lower c || is_digit c || nat_eq c b'-'

abbrev pub starts : ℕ → String → Bool
starts n String.[] = false
starts n (String.◌∷◌ c s) = nat_eq (code c) n

abbrev pub ends : ℕ → String → Bool
ends n String.[] = false
ends n (String.◌∷◌ c String.[]) = nat_eq (code c) n
ends n (String.◌∷◌ c (String.◌∷◌ d s)) = ends n (String.◌∷◌ d s)

slug_end_iff :
    (s : String)
    → (is_slug_end s ≡ true) ↔ ((all_codes is_slug_code s ≡ true) × (ends b'-' s ≡ false))
slug_end_iff String.[] = ground arith
slug_end_iff (String.◌∷◌ c String.[]) = ground arith
slug_end_iff (String.◌∷◌ c (String.◌∷◌ d s)) = ground (arith, slug_end_iff (String.◌∷◌ d s))

-- A slug has 1 to 63 lower-case letters, digits and hyphens, and no hyphen at either end.
pub is_slug_iff :
    (s : String)
    → (is_slug s ≡ true) ↔ (
        (1 ≤ size s)
        × (size s ≤ 63)
        × (all_codes is_slug_code s ≡ true)
        × (starts b'-' s ≡ false)
        × (ends b'-' s ≡ false))
unfolding is_slug
is_slug_iff String.[] = ground arith
is_slug_iff (String.◌∷◌ c String.[]) = ground arith
is_slug_iff (String.◌∷◌ c (String.◌∷◌ d s)) = ground (arith, slug_end_iff (String.◌∷◌ d s))

-- a setting that has to be given: clean, and not empty
pub record IsGiven (v : Values) (name text : String) : Type 0 where
  pub given : lookup name v ≡ some text
  pub nonempty : text ≢ ""
  pub trimmed : trim_space text ≡ text

required_text-Ensures :
    (v : Values) (name : String) → Ensures (IsGiven v name) (required_text v name)
required_text-Ensures v name = Ensures-of (required_text v name) λ text e.
    let (given, nonempty, trimmed) = (required_text_iff v name text).0 e in
    record { given = given; nonempty = nonempty; trimmed = trimmed }

-- The first owner and organization in their environment.
pub record IsBootstrap (go : Library) (host : Host) (v : Values) (b : Bootstrap) : Type 0 where
  pub database : IsDatabase host v control_plane_database_settings b.database
  pub password_policy : IsPasswordPolicy b.password_policy
  pub email : IsGiven v "BOOTSTRAP_OWNER_EMAIL" b.owner_email
  pub address : go.parse_address b.owner_email ≡ some b.owner_email
  pub name : IsGiven v "BOOTSTRAP_OWNER_NAME" b.owner_name
  pub organization : IsGiven v "BOOTSTRAP_ORGANIZATION_NAME" b.organization_name
  pub slug : IsGiven v "BOOTSTRAP_ORGANIZATION_SLUG" b.organization_slug
  pub short : (1 ≤ size b.organization_slug) × (size b.organization_slug ≤ 63)
  pub letters : all_codes is_slug_code b.organization_slug ≡ true
  pub no_hyphen :
      (starts b'-' b.organization_slug ≡ false) × (ends b'-' b.organization_slug ≡ false)
  pub password :
      IsSecretOf host
        (required_path v "BOOTSTRAP_PASSWORD_FILE" "/run/secrets/bootstrap_password")
        (4 * 1024)
        b.password
  pub printable : any_code is_control b.password ≡ false

own_address :
    (found : Option String) (email address : String)
    → found ≡ some address
    → not (address == email) ≡ false
    → found ≡ some email
own_address found email address h same = ground (arith, eq_iff address email)

accepted : (b : Bool) → not b ≡ false → b ≡ true
accepted b h = ground arith

parse_bootstrap-Ensures :
    (go : Library) (host : Host) (v : Values)
    → Ensures (IsBootstrap go host v) (parse_bootstrap go host v)
unfolding parse_bootstrap
parse_bootstrap-Ensures go host v = Ensures-trivial (preflight v bootstrap) ≫ λ _ _.
    Ensures-trivial (parse_shared v) ≫ λ shared _.
    Ensures-trivial (parse_logging v) ≫ λ observability _.
    parse_database-Ensures go host v control_plane_database_settings ≫ λ database h0.
    password-Ensures v ≫ λ policy h1. required_text-Ensures v "BOOTSTRAP_OWNER_EMAIL" ≫ λ email h2.
    or_fail-Ensures (go.parse_address email) _ ≫ λ address h3. fail_if-Ensures _ _ ≫ λ _ h4.
    required_text-Ensures v "BOOTSTRAP_OWNER_NAME" ≫ λ name h5.
    required_text-Ensures v "BOOTSTRAP_ORGANIZATION_NAME" ≫ λ organization h6.
    required_text-Ensures v "BOOTSTRAP_ORGANIZATION_SLUG" ≫ λ slug h7. fail_if-Ensures _ _ ≫ λ _ h8.
    read_simple_secret-Ensures host _ _ _ ≫ λ password h9.
    let (least, most, letters, first, last) = (is_slug_iff slug).0 (accepted (is_slug slug) h8) in
    holds (record {
      database = h0;
      password_policy = h1;
      email = h2;
      address = own_address (go.parse_address email) email address h3 h4;
      name = h5;
      organization = h6;
      slug = h7;
      short = (least, most);
      letters = letters;
      no_hyphen = (first, last);
      password = h9.0;
      printable = h9.1;
    })

-- A bootstrap configuration that is accepted has an owner whose email is one bare address, a name and
-- an organization that are given and trimmed, a slug of 1 to 63 lower-case letters, digits and inner
-- hyphens, a password from a protected file, and sound database settings and password policy.
pub parse_bootstrap-IsBootstrap :
    (go : Library) (host : Host) (v : Values) {b : Bootstrap}
    → parse_bootstrap go host v ≡ ok b
    → IsBootstrap go host v b
parse_bootstrap-IsBootstrap go host v h = Ensures-ok (rw h at (parse_bootstrap-Ensures go host v))
