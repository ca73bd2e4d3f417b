-- ===== src/Config/Policy/Gateway/Bounds.antt =====
-- What parseGatewayPolicy of internal/config/config.go accepts.
use nexus_relay.Common.{◌*◌, ◌≤◌, ◌≡◌, arith, ok}
use nexus_relay.Common.Ensures.{Ensures, holds, Ensures-ok, ◌≫◌, fail_if-Ensures}
use nexus_relay.Config.Library.{Library}
use nexus_relay.Config.Setting.{Values, millisecond, minute, hour}
use nexus_relay.Config.Setting.Laws.{
  IsBetween, integer-IsBetween, int64_value-IsBetween, duration-IsBetween,
}
use nexus_relay.Config.Policy.Gateway.{GatewayPolicy, parse_gateway_policy}

pub record IsGatewayPolicy (p : GatewayPolicy) : Type 0 where
  pub request_body_max_bytes : IsBetween 1 (1024 * 1024 * 1024) p.request_body_max_bytes
  pub upstream_connect_timeout : IsBetween millisecond (10 * minute) p.upstream_connect_timeout
  pub upstream_first_byte_timeout :
      IsBetween millisecond (30 * minute) p.upstream_first_byte_timeout
  pub upstream_idle_timeout : IsBetween millisecond (30 * minute) p.upstream_idle_timeout
  pub upstream_total_timeout : IsBetween millisecond (24 * hour) p.upstream_total_timeout
  pub max_upstream_attempts : IsBetween 1 20 p.max_upstream_attempts
  pub connect_fits : p.upstream_connect_timeout ≤ p.upstream_total_timeout
  pub first_byte_fits : p.upstream_first_byte_timeout ≤ p.upstream_total_timeout
  pub idle_fits : p.upstream_idle_timeout ≤ p.upstream_total_timeout

pub gateway-Ensures :
    (go : Library) (v : Values) → Ensures IsGatewayPolicy (parse_gateway_policy go v)
unfolding parse_gateway_policy
gateway-Ensures go v = int64_value-IsBetween v _ _ _ _ ≫ λ body h0.
    duration-IsBetween go v _ _ _ _ ≫ λ connect h1. duration-IsBetween go v _ _ _ _ ≫ λ first h2.
    duration-IsBetween go v _ _ _ _ ≫ λ idle h3. duration-IsBetween go v _ _ _ _ ≫ λ total h4.
    fail_if-Ensures _ _ ≫ λ _ g0. integer-IsBetween v _ _ _ _ ≫ λ attempts h5. holds (ground arith)

-- An accepted gateway policy lies within its bounds, and no stage of a request upstream may take
-- longer than the whole of it.
pub parse_gateway_policy-IsGatewayPolicy :
    (go : Library) (v : Values) {p : GatewayPolicy}
    → parse_gateway_policy go v ≡ ok p
    → IsGatewayPolicy p
parse_gateway_policy-IsGatewayPolicy go v h = Ensures-ok (rw h at (gateway-Ensures go v))
