-- ===== src/Config/Policy/Gateway/Defaults.antt =====
-- The defaults of parseGatewayPolicy in internal/config/config.go.
use nexus_relay.Common.{◌*◌, ◌≡◌, refl, List, [], ◌∷◌, String, arith, ok, IsAbsent}
use nexus_relay.Common.Succeeds.{Succeeds, succeeds, Succeeds-ok, ◌≫◌, fail_if-Succeeds}
use nexus_relay.Config.Library.{Library, ReadsDurations}
use nexus_relay.Config.Setting.{Values, second, minute}
use nexus_relay.Config.Setting.Laws.{absent_integer, absent_int64_value, absent_duration}
use nexus_relay.Config.Policy.Gateway.{GatewayPolicy, parse_gateway_policy}

abbrev pub gateway_settings : List String
gateway_settings =
    "REQUEST_BODY_MAX_BYTES" ∷ "UPSTREAM_CONNECT_TIMEOUT" ∷ "UPSTREAM_FIRST_BYTE_TIMEOUT"
    ∷ "UPSTREAM_IDLE_TIMEOUT" ∷ "UPSTREAM_TOTAL_TIMEOUT" ∷ "MAX_UPSTREAM_ATTEMPTS" ∷ []

abbrev pub default_gateway : GatewayPolicy
default_gateway = record {
  request_body_max_bytes = 10485760;
  upstream_connect_timeout = 10 * second;
  upstream_first_byte_timeout = 60 * second;
  upstream_idle_timeout = 60 * second;
  upstream_total_timeout = 10 * minute;
  max_upstream_attempts = 3;
}

gateway_default-Succeeds :
    {go : Library}
    → ReadsDurations go
    → (v : Values) → IsAbsent v gateway_settings
    → Succeeds (λ p. p ≡ default_gateway) (parse_gateway_policy go v)
unfolding parse_gateway_policy
gateway_default-Succeeds r v a =
    absent_int64_value a "REQUEST_BODY_MAX_BYTES" refl (omega arith) ≫ λ body e0.
    absent_duration a r "UPSTREAM_CONNECT_TIMEOUT" refl (omega arith) ≫ λ connect e1.
    absent_duration a r "UPSTREAM_FIRST_BYTE_TIMEOUT" refl (omega arith) ≫ λ first e2.
    absent_duration a r "UPSTREAM_IDLE_TIMEOUT" refl (omega arith) ≫ λ idle e3.
    absent_duration a r "UPSTREAM_TOTAL_TIMEOUT" refl (omega arith) ≫ λ total e4.
    fail_if-Succeeds _ _ (ground arith) ≫ λ _ _.
    absent_integer a "MAX_UPSTREAM_ATTEMPTS" refl (omega arith) ≫ λ attempts e5.
    succeeds (ground arith)

-- Where none of the gateway settings is given, the defaults are accepted, if durations are read
-- back as they are printed.
pub parse_gateway_policy_default :
    {go : Library}
    → ReadsDurations go
    → (v : Values) → IsAbsent v gateway_settings
    → parse_gateway_policy go v ≡ ok default_gateway
parse_gateway_policy_default r v a =
    let (p, e, same) = Succeeds-ok (gateway_default-Succeeds r v a) in rw e (rw same)
