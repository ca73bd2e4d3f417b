-- ===== src/Tests/Owner.antt =====
-- A run of ParseBootstrap of internal/config/config.go.
use nexus_relay.Config.Setting.{environment, add_entries}
use nexus_relay.Common.{◌∷◌, ◌≡◌, refl, true, fail_if, or_fail, lookup, insert}
use nexus_relay.Common.Text.{split, trim_space, is_control}
use nexus_relay.Config.Connection.{parse_database, parse_database_ssl_mode}
use nexus_relay.Config.Inventory.{inventory, is_known}
use nexus_relay.Config.Json.Accepts.{is_ok}
use nexus_relay.Config.Number.{itoa, atoi}
use nexus_relay.Config.Preflight.{preflight, check_names, check_command_only, is_undocumented}
use nexus_relay.Config.Secret.{
  read_simple_secret, read_secret_bytes, open_protected_file, bounded_text, strip_line_end,
}
use nexus_relay.Config.Service.{parse_shared, parse_logging}
use nexus_relay.Config.Setting
use nexus_relay.Tests.Deployed.{found, deployed, machine, production}
use nexus_relay.Config.Processes.{parse_bootstrap, is_slug}
use nexus_relay.Config.Processes.Owner.{IsBootstrap, parse_bootstrap-IsBootstrap}
use nexus_relay.Config.Policy.Password.{parse_password_policy}
use nexus_relay.Config.Setting.{Values}

abbrev owner : Values
owner =
    ("BOOTSTRAP_OWNER_EMAIL", "owner@relay.example")
    ∷ ("BOOTSTRAP_OWNER_NAME", "First Owner")
    ∷ ("BOOTSTRAP_ORGANIZATION_NAME", "Example")
    ∷ ("BOOTSTRAP_ORGANIZATION_SLUG", "example-1")
    ∷ production

owner_accepted : is_ok (parse_bootstrap deployed machine owner) ≡ true
unfolding parse_bootstrap is_slug preflight check_names check_command_only is_undocumented is_known
    inventory parse_shared parse_logging parse_database parse_password_policy
    parse_database_ssl_mode read_simple_secret read_secret_bytes open_protected_file bounded_text
    strip_line_end split lookup insert trim_space is_control fail_if or_fail Setting.value
    Setting.required_path Setting.one_of Setting.is_production_grade Setting.validate_environment
    Setting.clean_nonempty Setting.duration Setting.integer Setting.int64_value Setting.boolean
    Setting.in_range Setting.required_text itoa atoi
owner_accepted = refl

parse_bootstrap-IsBootstrap_example :
    IsBootstrap deployed machine owner
      (found (parse_bootstrap deployed machine owner) owner_accepted).0
parse_bootstrap-IsBootstrap_example =
    parse_bootstrap-IsBootstrap deployed machine owner
      (found (parse_bootstrap deployed machine owner) owner_accepted).1
