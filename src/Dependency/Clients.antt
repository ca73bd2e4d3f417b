-- ===== src/Dependency/Clients.antt =====
-- internal/dependency/dependency.go: the clients of PostgreSQL and Redis, opened and closed. pgx and
-- go-redis are parameters; what the program sets of their options is written out.
pub mod Laws
use nexus_relay.Common.{
  ℕ, ◌%◌, ◌^◌, String, Bool, true, false, not, Option, none, some, List, [], ◌∷◌, ◌++◌, nat_eq,
  plain, Result, ok, err, if◌then◌else◌,
}
use nexus_relay.Config.Connection.{Database, Redis}
use nexus_relay.Config.Library.{Library, Url}
use nexus_relay.Config.Number.{itoa}
use nexus_relay.Dependency.Probes.{Probe}

-- the connection URL: url.URL with UserPassword, and the one query parameter that is set
pub record ConnectionUrl : Type 0 where
  pub scheme : String
  pub username : String
  pub password : String
  pub host : String
  pub path : String
  pub ssl_mode : String

-- what of pgxpool.Config is set, over what ParseConfig made of the URL
pub record PoolConfig (Parsed : Type 0) : Type 0 where
  pub parsed : Parsed
  pub min_connections : ℕ
  pub max_connections : ℕ
  pub connect_timeout : ℕ

-- redis.Options: what ParseURL made of the URL, and what is set of them. A count of retries of -1
-- turns retries off.
pub record RedisOptions (Parsed : Type 0) : Type 0 where
  pub parsed : Parsed
  pub protocol : ℕ
  pub disable_identity : Bool
  pub maintenance_disabled : Bool
  pub retries_disabled : Bool
  pub dialer_retries : ℕ
  pub dial_timeout : ℕ
  pub read_timeout : ℕ
  pub write_timeout : ℕ
  pub context_timeout : Bool
  pub pool_size : ℕ
  pub max_active : ℕ

-- pgxpool.ParseConfig of the text of a URL, pgxpool.NewWithConfig, which may fail, and redis.ParseURL
-- with the number of the database in it
pub record Drivers : Type 1 where
  pub Parsed : Type 0
  pub parse_config : ConnectionUrl → Option Parsed
  pub pool_opens : PoolConfig Parsed → Bool
  pub ParsedRedis : Type 0
  pub parse_redis_url : String → Option ParsedRedis
  pub database_of : ParsedRedis → ℕ

-- int32(n), of a number that is not negative, as a two's complement
abbrev pub to_int32 : ℕ → ℕ
to_int32 n = n % 2 ^ 32

module _ (d : Drivers) (go : Library) where
  unfoldable pub connection_url : Database → ConnectionUrl
  connection_url database = record {
    scheme = "postgres";
    username = database.user;
    password = database.password;
    host = go.join_host_port database.host (itoa database.port);
    path = database.name;
    ssl_mode = database.ssl_mode;
  }

  unfoldable pub postgres_pool_config : Database → ℕ → Option (PoolConfig d.Parsed)
  unfolding connection_url
  postgres_pool_config database probe_timeout = elim (d.parse_config (connection_url database)) [
    | none ↦ none
    | some parsed ↦ some (record {
      parsed = parsed;
      min_connections = to_int32 database.min_connections;
      max_connections = to_int32 database.max_connections;
      connect_timeout = probe_timeout;
    })
  ]

  abbrev options_of : Redis → ℕ → d.ParsedRedis → RedisOptions d.ParsedRedis
  options_of redis probe_timeout parsed = record {
    parsed = parsed;
    protocol = 2;
    disable_identity = true;
    maintenance_disabled = true;
    retries_disabled = true;
    dialer_retries = 1;
    dial_timeout = probe_timeout;
    read_timeout = probe_timeout;
    write_timeout = probe_timeout;
    context_timeout = true;
    pool_size = redis.max_connections;
    max_active = redis.max_connections;
  }

  unfoldable pub redis_options : Redis → ℕ → Option (RedisOptions d.ParsedRedis)
  redis_options redis probe_timeout = elim (d.parse_redis_url redis.url) [
    | none ↦ none
    | some parsed ↦ elim (nat_eq (d.database_of parsed) 0) [
      | true ↦ some (options_of redis probe_timeout parsed)
      | false ↦ none
    ]
  ]

-- What a process opens and closes, in order; the exporter of traces is closed by its provider.
pub data Resource : Type 0 where
  exporter postgresql_pool redis_client : Resource

pub data Effect : Type 0 where
  opened closed : Resource → Effect

module _ (d : Drivers) where
  pub record Clients : Type 0 where
    pub postgresql : Option (PoolConfig d.Parsed)
    pub redis : Option (RedisOptions d.ParsedRedis)

  abbrev close_one {ℓ} : {A : Type ℓ} → Option A → Resource → List Effect
  close_one none r = []
  close_one (some _) r = closed r ∷ []

  -- a nil receiver has nothing to close
  unfoldable pub close : Option Clients → List Effect
  close none = []
  close (some c) = close_one c.redis redis_client ++ close_one c.postgresql postgresql_pool

  abbrev pub with_redis :
      PoolConfig d.Parsed → Option (RedisOptions d.ParsedRedis) → Result Clients × List Effect
  with_redis pool none =
      (err (plain "configure Redis client"), opened postgresql_pool ∷ closed postgresql_pool ∷ [])
  with_redis pool (some options) = (
    ok (record { postgresql = some pool; redis = some options }),
    opened postgresql_pool ∷ opened redis_client ∷ [],
  )

  abbrev pub with_pool :
      Option (PoolConfig d.Parsed)
      → Option (RedisOptions d.ParsedRedis)
      → Result Clients × List Effect
  with_pool none options = (err (plain "configure PostgreSQL client"), [])
  with_pool (some pool) options =
      if d.pool_opens pool
      then with_redis pool options
      else (err (plain "configure PostgreSQL client"), [])

  unfoldable pub open_clients : Library → Database → Redis → ℕ → Result Clients × List Effect
  open_clients go database redis probe_timeout =
      with_pool (postgres_pool_config d go database probe_timeout)
        (redis_options d go redis probe_timeout)

-- Clients.Probes, with a function that observes them
unfoldable pub probes : List Probe
probes =
    record { name = "postgresql"; has_ping = true; is_observed = true }
    ∷ record { name = "redis"; has_ping = true; is_observed = true }
    ∷ []
