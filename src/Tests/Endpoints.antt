-- ===== src/Tests/Endpoints.antt =====
-- Runs of internal/config/config.go on a production deployment: endpoints and connections.
use nexus_relay.Common.{◌≡◌, refl, true, false, fail_if, or_fail, lookup}
use nexus_relay.Common.Text.{split, trim_space, is_control}
use nexus_relay.Config.Connection.{
  parse_database, parse_database_ssl_mode, gateway_database_settings,
}
use nexus_relay.Config.Endpoint.{
  absolute_url, origin_url, add_origins, parse_origins, parse_cidrs, parse_named_cidrs,
  scan_origins, validate_admin_origins, parse_endpoints,
}
use nexus_relay.Config.Json.Accepts.{is_ok}
use nexus_relay.Config.Number.{itoa, atoi}
use nexus_relay.Config.Secret.{
  read_simple_secret, read_secret_bytes, open_protected_file, bounded_text, strip_line_end,
}
use nexus_relay.Config.Setting.{
  value, one_of, is_production_grade, clean_nonempty, required_path, integer, duration, in_range,
}
use nexus_relay.Tests.Deployed.{deployed, machine, production}

origins_accepted :
    is_ok (parse_origins deployed "https://admin.example,https://relay.example/v1") ≡ false
unfolding parse_origins add_origins origin_url absolute_url split trim_space one_of fail_if or_fail
origins_accepted = refl

origins_parsed : is_ok (parse_origins deployed "https://admin.example") ≡ true
unfolding parse_origins add_origins origin_url absolute_url split trim_space one_of fail_if or_fail
origins_parsed = refl

endpoints_accepted : is_ok (parse_endpoints deployed production "production") ≡ true
unfolding parse_endpoints parse_origins add_origins origin_url absolute_url parse_cidrs
    parse_named_cidrs scan_origins validate_admin_origins value lookup is_production_grade split
    trim_space one_of fail_if or_fail
endpoints_accepted = refl

database_accepted :
    is_ok (parse_database deployed machine production gateway_database_settings) ≡ true
unfolding parse_database parse_database_ssl_mode value required_path lookup is_production_grade
    trim_space one_of fail_if or_fail clean_nonempty integer duration in_range itoa atoi
    read_simple_secret read_secret_bytes open_protected_file bounded_text strip_line_end is_control
database_accepted = refl
