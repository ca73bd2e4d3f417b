-- ===== src/Config/Processes/Services.antt =====
-- What the configurations of the gateway and the worker of internal/config/config.go are that were
-- accepted.
use nexus_relay.Common.{◌≡◌, ok}
use nexus_relay.Common.Ensures.{Ensures, holds, Ensures-ok, Ensures-trivial, ◌≫◌}
use nexus_relay.Config.Connection.{gateway_database_settings, worker_database_settings, parse_redis}
use nexus_relay.Config.Connection.Laws.{IsDatabase, parse_database-Ensures}
use nexus_relay.Config.Endpoint.{parse_gateway_endpoints}
use nexus_relay.Config.Inventory.{gateway, worker}
use nexus_relay.Config.KeyFile.Laws.{read_key_ring-Ensures, read_provider_key_ring-Ensures}
use nexus_relay.Config.Library.{Library, Host}
use nexus_relay.Config.Policy.Gateway.Bounds.{IsGatewayPolicy, gateway-Ensures}
use nexus_relay.Config.Policy.Worker.Bounds.{IsWorkerPolicy, worker-Ensures}
use nexus_relay.Config.Policy.Readiness.Bounds.{IsReadinessPolicy, readiness-Ensures}
use nexus_relay.Config.Preflight.{preflight}
use nexus_relay.Config.Processes.{
  Gateway, Worker, parse_service_common, parse_gateway, parse_worker,
}
use nexus_relay.Config.Processes.Laws.{HasProviderRing, HasPepperRing}
use nexus_relay.Config.Setting.{Values}

-- A gateway in its environment.
pub record IsGateway (go : Library) (host : Host) (v : Values) (g : Gateway) : Type 0 where
  pub database : IsDatabase host v gateway_database_settings g.database
  pub readiness : IsReadinessPolicy g.readiness
  pub policy : IsGatewayPolicy g.policy
  pub provider : HasProviderRing go host v g.provider_keys
  pub peppers : HasPepperRing go host v g.api_key_peppers

-- A worker in its environment.
pub record IsWorker (go : Library) (host : Host) (v : Values) (w : Worker) : Type 0 where
  pub database : IsDatabase host v worker_database_settings w.database
  pub readiness : IsReadinessPolicy w.readiness
  pub policy : IsWorkerPolicy w.policy
  pub provider : HasProviderRing go host v w.provider_keys

parse_gateway-Ensures :
    (go : Library) (host : Host) (v : Values)
    → Ensures (IsGateway go host v) (parse_gateway go host v)
unfolding parse_gateway
parse_gateway-Ensures go host v = Ensures-trivial (preflight v gateway) ≫ λ _ _.
    Ensures-trivial (parse_service_common go v) ≫ λ common _.
    Ensures-trivial (parse_gateway_endpoints go v _) ≫ λ endpoints _.
    parse_database-Ensures go host v gateway_database_settings ≫ λ database h0.
    Ensures-trivial (parse_redis go host v _ _) ≫ λ redis _.
    readiness-Ensures go v ≫ λ readiness h1.
    read_provider_key_ring-Ensures go host _ ≫ λ provider h2.
    read_key_ring-Ensures go host _ _ ≫ λ peppers h3. gateway-Ensures go v ≫ λ policy h4.
    holds (record { database = h0; readiness = h1; policy = h4; provider = h2; peppers = h3 })

parse_worker-Ensures :
    (go : Library) (host : Host) (v : Values)
    → Ensures (IsWorker go host v) (parse_worker go host v)
unfolding parse_worker
parse_worker-Ensures go host v = Ensures-trivial (preflight v worker) ≫ λ _ _.
    Ensures-trivial (parse_service_common go v) ≫ λ common _.
    parse_database-Ensures go host v worker_database_settings ≫ λ database h0.
    Ensures-trivial (parse_redis go host v _ _) ≫ λ redis _.
    readiness-Ensures go v ≫ λ readiness h1.
    read_provider_key_ring-Ensures go host _ ≫ λ provider h2. worker-Ensures go v ≫ λ policy h3.
    holds (record { database = h0; readiness = h1; policy = h3; provider = h2 })

-- A gateway that is accepted has its own user's database settings, a readiness and a gateway policy
-- within their bounds, and key rings for providers and peppers from protected files, of distinct valid
-- keys.
pub parse_gateway-IsGateway :
    (go : Library) (host : Host) (v : Values) {g : Gateway}
    → parse_gateway go host v ≡ ok g
    → IsGateway go host v g
parse_gateway-IsGateway go host v h = Ensures-ok (rw h at (parse_gateway-Ensures go host v))

-- A worker that is accepted has its own user's database settings, a readiness and a worker policy
-- within their bounds, and a key ring for providers from a protected file, of distinct valid keys.
pub parse_worker-IsWorker :
    (go : Library) (host : Host) (v : Values) {w : Worker}
    → parse_worker go host v ≡ ok w
    → IsWorker go host v w
parse_worker-IsWorker go host v h = Ensures-ok (rw h at (parse_worker-Ensures go host v))
