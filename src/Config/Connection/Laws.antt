-- ===== src/Config/Connection/Laws.antt =====
-- What the connections of internal/config/config.go are that were accepted.
use nexus_relay.Common.{
  ◌*◌, ◌≤◌, ◌≡◌, ◌≢◌, refl, String, false, ◌&&◌, ◌==◌, ok, eq_iff, arith, ltb→le,
}
use nexus_relay.Common.Ensures.{Ensures, holds, Ensures-ok, Ensures-trivial, ◌≫◌, fail_if-Ensures}
use nexus_relay.Config.Library.{Library, Host}
use nexus_relay.Config.Secret.Protected.{IsSecretOf, read_simple_secret-Ensures}
use nexus_relay.Config.Setting.{
  Values, millisecond, minute, value, required_path, clean_nonempty, is_production_grade,
}
use nexus_relay.Config.Setting.Laws.{IsBetween, integer-IsBetween, duration-IsBetween}
use nexus_relay.Config.Connection.{
  Database, DatabaseProcessSettings, parse_database_ssl_mode, parse_database, default_password_path,
}

ssl_checked :
    (environment mode : String)
    → (is_production_grade environment && mode == "disable") ≡ false
    → environment ≡ "production"
    → mode ≢ "disable"
unfolding is_production_grade
ssl_checked environment mode h p e =
    ground (arith, eq_iff mode "disable", eq_iff environment "production")

pub ssl_mode-Ensures :
    (v : Values) (environment : String)
    → Ensures
        (λ mode. environment ≡ "production" → mode ≢ "disable")
        (parse_database_ssl_mode v environment)
unfolding parse_database_ssl_mode
ssl_mode-Ensures v environment = fail_if-Ensures _ _ ≫ λ _ _. fail_if-Ensures _ _ ≫ λ _ h.
    holds (ssl_checked environment (value v "DATABASE_SSLMODE" "disable") h)

pub record IsDatabase (host : Host) (v : Values) (s : DatabaseProcessSettings) (d : Database)
    : Type 0 where
  pub port : IsBetween 1 65535 d.port
  pub user : d.user ≡ s.user
  pub connections : d.min_connections ≤ d.max_connections
  pub most : IsBetween 1 10000 d.max_connections
  pub statement : IsBetween millisecond (30 * minute) d.statement_timeout
  pub transaction : IsBetween millisecond (30 * minute) d.transaction_timeout
  pub password :
      IsSecretOf host
        (required_path v s.password_setting (default_password_path s.password_setting))
        (4 * 1024)
        d.password
  pub encrypted : value v "NEXUSRELAY_ENV" "development" ≡ "production" → d.ssl_mode ≢ "disable"

pub parse_database-Ensures :
    (go : Library) (host : Host) (v : Values) (s : DatabaseProcessSettings)
    → Ensures (IsDatabase host v s) (parse_database go host v s)
unfolding parse_database
parse_database-Ensures go host v s = Ensures-trivial (clean_nonempty _ _) ≫ λ _ _.
    Ensures-trivial (clean_nonempty _ _) ≫ λ _ _. integer-IsBetween v _ _ _ _ ≫ λ port h0.
    ssl_mode-Ensures v _ ≫ λ mode h1. duration-IsBetween go v _ _ _ _ ≫ λ statement h2.
    duration-IsBetween go v _ _ _ _ ≫ λ transaction h3. fail_if-Ensures _ _ ≫ λ _ _.
    integer-IsBetween v _ _ _ _ ≫ λ minimum h4. integer-IsBetween v _ _ _ _ ≫ λ maximum h5.
    fail_if-Ensures _ _ ≫ λ _ h6. read_simple_secret-Ensures host _ _ _ ≫ λ password h7.
    holds (record {
      port = h0;
      user = refl;
      connections = ltb→le maximum minimum h6;
      most = h5;
      statement = h2;
      transaction = h3;
      password = h7.0;
      encrypted = h1;
    })

-- The database settings of a process that are accepted have a port and timeouts within their bounds,
-- a least number of connections that does not exceed the greatest, the process's own user, a
-- password from a protected file, and in production a mode that encrypts the connection.
pub parse_database-IsDatabase :
    (go : Library) (host : Host) (v : Values) (s : DatabaseProcessSettings) {d : Database}
    → parse_database go host v s ≡ ok d
    → IsDatabase host v s d
parse_database-IsDatabase go host v s h = Ensures-ok (rw h at (parse_database-Ensures go host v s))
