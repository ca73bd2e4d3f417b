-- ===== src/Config/Policy/Gateway.antt =====
-- internal/config/config.go: parseGatewayPolicy. Durations are in nanoseconds.
pub mod Bounds
pub mod Defaults
use nexus_relay.Common.{
  ℕ, ◌+◌, ◌*◌, ◌/◌, ◌%◌, ◌^◌, ◌≤◌, ◌<◌, ◌≡◌, refl, List, [], ◌∷◌, String, ◌||◌, arith, ltb, leb,
  ltb→le, leb→lt, plain, Result, ok, fail_if, IsAbsent,
}
use nexus_relay.Common.{◌>>=◌, ◌>>◌}
use nexus_relay.Config.Library.{Library, ReadsDurations}
use nexus_relay.Config.Setting.{
  Values, millisecond, second, minute, hour, duration, integer, int64_value,
}

pub record GatewayPolicy : Type 0 where
  pub request_body_max_bytes : ℕ
  pub upstream_connect_timeout : ℕ
  pub upstream_first_byte_timeout : ℕ
  pub upstream_idle_timeout : ℕ
  pub upstream_total_timeout : ℕ
  pub max_upstream_attempts : ℕ

unfoldable pub parse_gateway_policy : Library → Values → Result GatewayPolicy
parse_gateway_policy go v = do
  body ← int64_value v "REQUEST_BODY_MAX_BYTES" 10485760 1 (1024 * 1024 * 1024)
  connect ← duration go v "UPSTREAM_CONNECT_TIMEOUT" (10 * second) millisecond (10 * minute)
  first ← duration go v "UPSTREAM_FIRST_BYTE_TIMEOUT" (60 * second) millisecond (30 * minute)
  idle ← duration go v "UPSTREAM_IDLE_TIMEOUT" (60 * second) millisecond (30 * minute)
  total ← duration go v "UPSTREAM_TOTAL_TIMEOUT" (10 * minute) millisecond (24 * hour)
  fail_if (ltb total connect || ltb total first || ltb total idle)
      (plain "each upstream stage timeout must not exceed UPSTREAM_TOTAL_TIMEOUT")
  attempts ← integer v "MAX_UPSTREAM_ATTEMPTS" 3 1 20
  ok (record {
    request_body_max_bytes = body;
    upstream_connect_timeout = connect;
    upstream_first_byte_timeout = first;
    upstream_idle_timeout = idle;
    upstream_total_timeout = total;
    max_upstream_attempts = attempts;
  })
