-- ===== src/Tests/Settings.antt =====
-- Runs of internal/config/config.go.
use nexus_relay.Common.{◌≡◌, ◌↔◌, true, none, [], ◌∷◌, All, lookup, ok}
use nexus_relay.Config.Inventory.{gateway, worker}
use nexus_relay.Config.Preflight.{preflight, values_for_process, is_service, command_only_settings}
use nexus_relay.Config.Preflight.Laws.{IsAllowed, preflight_iff, preflight-values_for_process}
use nexus_relay.Config.Setting.{Values}

abbrev settings : Values
settings = ("HTTP_PORT", "9000") ∷ ("OUTBOX_LEASE_DURATION", "1m") ∷ ("PATH", "/bin") ∷ []

preflight_iff_example : (preflight settings worker ≡ ok tt) ↔ (
    All IsAllowed settings
    × (is_service worker ≡ true → All (λ name. lookup name settings ≡ none) command_only_settings))
preflight_iff_example = preflight_iff settings worker

preflight-values_for_process_example :
    preflight (values_for_process settings gateway) gateway ≡ ok tt
preflight-values_for_process_example = preflight-values_for_process settings gateway
