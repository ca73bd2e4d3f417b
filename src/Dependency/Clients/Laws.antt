-- ===== src/Dependency/Clients/Laws.antt =====
-- What the clients of internal/dependency/dependency.go are for settings that were accepted.
use nexus_relay.Common.{
  ℕ, ◌≤◌, ◌≡◌, refl, Bool, true, false, Option, none, some, List, [], ◌∷◌, if◌then◌else◌, Result,
  ok, err, arith, Bool-cases, Option-cases, inl, inr,
}
use nexus_relay.Config.Connection.{Database, DatabaseProcessSettings, Redis, parse_database}
use nexus_relay.Config.Connection.Laws.{parse_database-IsDatabase}
use nexus_relay.Config.Library.{Library, Host}
use nexus_relay.Config.Setting.{Values}
use nexus_relay.Dependency.Clients.{
  PoolConfig, RedisOptions, Drivers, to_int32, connection_url, postgres_pool_config, redis_options,
  Resource, exporter, postgresql_pool, redis_client, Effect, opened, closed, Clients, close,
  with_redis, with_pool, open_clients,
}

abbrev pub is_same : Resource → Resource → Bool
is_same exporter exporter = true
is_same postgresql_pool postgresql_pool = true
is_same redis_client redis_client = true
is_same _ _ = false

abbrev pub pop : Resource → List Resource → Option (List Resource)
pop r [] = none
pop r (top ∷ stack) = if is_same r top then some stack else none

-- What is open after some effects, the latest first; none if one is closed that is not the latest.
abbrev pub after : List Effect → List Resource → Option (List Resource)
after [] stack = some stack
after (opened r ∷ effects) stack = after effects (r ∷ stack)
after (closed r ∷ effects) stack = elim (pop r stack) [
  | none ↦ none
  | some rest ↦ after effects rest
]

-- Open leaves both clients open, or none.
abbrev pub left_open {ℓ} : {A : Type ℓ} → Result A → List Resource → List Resource
left_open (ok _) stack = redis_client ∷ postgresql_pool ∷ stack
left_open (err _) stack = stack

module _ (d : Drivers) where
  with_redis-after :
      (pool : PoolConfig d.Parsed) (options : Option (RedisOptions d.ParsedRedis))
      (stack : List Resource)
      → let (r, effects) = with_redis d pool options in
        after effects stack ≡ some (left_open r stack)
  with_redis-after pool none stack = refl
  with_redis-after pool (some options) stack = refl

  with_pool-after :
      (pool : Option (PoolConfig d.Parsed)) (options : Option (RedisOptions d.ParsedRedis))
      (stack : List Resource)
      → let (r, effects) = with_pool d pool options in
        after effects stack ≡ some (left_open r stack)
  with_pool-after none options stack = refl
  with_pool-after (some pool) options stack = elim (Bool-cases (d.pool_opens pool)) [
    | inl opens ↦ rw opens (with_redis-after pool options stack)
    | inr fails ↦ rw fails
  ]

  -- The pool and the options of clients that were opened.
  pub record AreOpened (go : Library) (database : Database) (redis : Redis) (timeout : ℕ)
      (c : Clients d) : Type 0 where
    pub pool : PoolConfig d.Parsed
    pub options : RedisOptions d.ParsedRedis
    pub clients : c ≡ record { postgresql = some pool; redis = some options }
    pub connects : d.parse_config (connection_url d go database) ≡ some pool.parsed
    pub most : pool.max_connections ≡ database.max_connections
    pub fewest : pool.min_connections ≡ database.min_connections
    pub least : pool.min_connections ≤ pool.max_connections
    pub waits : (pool.connect_timeout ≡ timeout) × (options.read_timeout ≡ timeout)
    pub redis_url : d.parse_redis_url redis.url ≡ some options.parsed
    pub redis_database : d.database_of options.parsed ≡ 0
    pub redis_most : options.max_active ≡ redis.max_connections
    -- neither HELLO nor CLIENT SETINFO nor a second attempt is sent
    pub plain_protocol :
        (options.protocol ≡ 2)
        × (options.disable_identity ≡ true)
        × (options.retries_disabled ≡ true)

  pool_found :
      (go : Library) (database : Database) (timeout : ℕ) (pool : PoolConfig d.Parsed)
      → postgres_pool_config d go database timeout ≡ some pool
      → (d.parse_config (connection_url d go database) ≡ some pool.parsed)
        × (pool.max_connections ≡ to_int32 database.max_connections)
        × (pool.min_connections ≡ to_int32 database.min_connections)
        × (pool.connect_timeout ≡ timeout)
  unfolding postgres_pool_config
  pool_found go database timeout pool h =
      elim (Option-cases (d.parse_config (connection_url d go database))) [
        | inl refused ↦ ground arith
        | inr (parsed, e) ↦ ground arith
      ]

  options_found :
      (go : Library) (redis : Redis) (timeout : ℕ) (options : RedisOptions d.ParsedRedis)
      → redis_options d go redis timeout ≡ some options
      → (d.parse_redis_url redis.url ≡ some options.parsed)
        × (d.database_of options.parsed ≡ 0)
        × (options.max_active ≡ redis.max_connections)
        × (options.read_timeout ≡ timeout)
        × (options.protocol ≡ 2)
        × (options.disable_identity ≡ true)
        × (options.retries_disabled ≡ true)
  unfolding redis_options
  options_found go redis timeout options h = elim (Option-cases (d.parse_redis_url redis.url)) [
    | inl refused ↦ ground arith
    | inr (parsed, e) ↦ ground arith
  ]

  with_pool_found :
      (pool : Option (PoolConfig d.Parsed)) (options : Option (RedisOptions d.ParsedRedis))
      {c : Clients d}
      → (with_pool d pool options).0 ≡ ok c
      → (p : PoolConfig d.Parsed) × ((o : RedisOptions d.ParsedRedis) × (pool ≡ some p)
          × (options ≡ some o)
          × (c ≡ record { postgresql = some p; redis = some o }))
  with_pool_found none options h = cc
  with_pool_found (some pool) none h = elim (Bool-cases (d.pool_opens pool)) [
    | inl opens ↦ let refused = rw opens at h in cc
    | inr fails ↦ let refused = rw fails at h in cc
  ]
  with_pool_found (some pool) (some options) h = elim (Bool-cases (d.pool_opens pool)) [
    | inl opens ↦ let given = rw opens at h in (pool, (options, refl, refl, cc))
    | inr fails ↦ let refused = rw fails at h in cc
  ]

  open_clients-Ensures :
      (go : Library) (database : Database) (redis : Redis) (timeout : ℕ)
      → database.min_connections ≤ database.max_connections
      → database.max_connections ≤ 10000
      → {c : Clients d} → (open_clients d go database redis timeout).0 ≡ ok c
      → AreOpened go database redis timeout c
  unfolding open_clients
  open_clients-Ensures go database redis timeout least most h =
      let (pool, (options, e, f, made)) =
        with_pool_found (postgres_pool_config d go database timeout)
          (redis_options d go redis timeout) h in
      let (connects, highest, lowest, waits) = pool_found go database timeout pool e in
      let (url, zeroth, active, reads, protocol, identity, retries) =
        options_found go redis timeout options f in
      record {
        pool = pool;
        options = options;
        clients = made;
        connects = connects;
        most = omega arith;
        fewest = omega arith;
        least = omega arith;
        waits = (waits, reads);
        redis_url = url;
        redis_database = zeroth;
        redis_most = active;
        plain_protocol = (protocol, identity, retries);
      }

-- Opening the clients of database settings that were accepted yields a pool whose numbers of
-- connections are those of the settings, not changed by the conversion to 32 bits, with the least not
-- above the greatest, and Redis options for database 0 with neither HELLO, CLIENT SETINFO nor retries;
-- connecting to PostgreSQL and reading from Redis take the given timeout.
pub open_clients-AreOpened :
    (d : Drivers) (go : Library) (host : Host) (v : Values) (s : DatabaseProcessSettings)
    (redis : Redis) (timeout : ℕ) {database : Database} {c : Clients d}
    → parse_database go host v s ≡ ok database
    → (open_clients d go database redis timeout).0 ≡ ok c
    → AreOpened d go database redis timeout c
open_clients-AreOpened d go host v s redis timeout {database} accepted h =
    let sound = parse_database-IsDatabase go host v s accepted in
    open_clients-Ensures d go database redis timeout sound.connections sound.most.1 h

-- Open leaves both clients open, PostgreSQL first, or on an error none: what it opened before the
-- error it closes.
pub open_clients-after :
    (d : Drivers) (go : Library) (database : Database) (redis : Redis) (timeout : ℕ)
    (stack : List Resource)
    → let (r, effects) = open_clients d go database redis timeout in
      after effects stack ≡ some (left_open r stack)
unfolding open_clients
open_clients-after d go database redis timeout stack =
    with_pool-after d (postgres_pool_config d go database timeout)
      (redis_options d go redis timeout) stack

-- Close closes what Open opened, the latest first.
pub close-after :
    (d : Drivers) (go : Library) (database : Database) (redis : Redis) (timeout : ℕ) {c : Clients d}
    (stack : List Resource)
    → (open_clients d go database redis timeout).0 ≡ ok c
    → after (close d (some c)) (redis_client ∷ postgresql_pool ∷ stack) ≡ some stack
unfolding open_clients close
close-after d go database redis timeout stack h =
    let (pool, (options, e, f, made)) =
      with_pool_found d (postgres_pool_config d go database timeout)
        (redis_options d go redis timeout) h in
    rw made
