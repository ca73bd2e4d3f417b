-- ===== src/Config/Preflight.antt =====
-- internal/config: which settings a process may be given (preflight in config.go), and which of a
-- deployment's settings it is given (ValuesForProcess in envfile.go).
pub mod Laws
use nexus_relay.Common.{
  String, Bool, true, false, ◌||◌, none, some, List, [], ◌∷◌, if◌then◌else◌, lookup, is_some,
  contains, setting, Result, ok, err, ◌>>=◌, ◌>>◌,
}
use nexus_relay.Common.Text.{has_prefix}
use nexus_relay.Config.Inventory.{
  Process, gateway, control_plane, worker, bootstrap, deployment, SettingClass, inventory, is_known,
  unmistakable_owned_prefixes, obsolete_settings,
}
use nexus_relay.Config.Setting.{Values}

abbrev has_one_of : List String → String → Bool
has_one_of [] name = false
has_one_of (prefix ∷ prefixes) name = has_prefix name prefix || has_one_of prefixes name

-- the body of the first loop: the names that it refuses
unfoldable pub is_undocumented : String → Bool
unfolding is_known
is_undocumented name =
    if is_known name
    then false
    else contains name obsolete_settings || has_one_of unmistakable_owned_prefixes name

-- The first loop, `for name := range v`, in the order of the list: Go's order is any. The texts of
-- its two errors are one text.
unfoldable pub check_names : Values → Result (Unit {0})
check_names [] = ok tt
check_names ((name, _) ∷ v) =
    if is_undocumented name
    then err (setting name "is not a documented NexusRelay setting")
    else check_names v

abbrev pub command_only_settings : List String
command_only_settings =
    "BOOTSTRAP_OWNER_EMAIL" ∷ "BOOTSTRAP_OWNER_NAME" ∷ "BOOTSTRAP_ORGANIZATION_NAME"
    ∷ "BOOTSTRAP_ORGANIZATION_SLUG" ∷ "BOOTSTRAP_PASSWORD_FILE" ∷ []

unfoldable pub check_command_only : Values → List String → Result (Unit {0})
check_command_only v [] = ok tt
check_command_only v (name ∷ names) =
    if is_some (lookup name v)
    then err (setting name "is command-only and is not accepted by long-running services")
    else check_command_only v names

abbrev pub is_service : Process → Bool
is_service gateway = true
is_service control_plane = true
is_service worker = true
is_service _ = false

unfoldable pub preflight : Values → Process → Result (Unit {0})
unfolding check_names check_command_only
preflight v process = do
  check_names v
  if is_service process then check_command_only v command_only_settings else ok tt

abbrev pub same_process : Process → Process → Bool
same_process gateway gateway = true
same_process control_plane control_plane = true
same_process worker worker = true
same_process bootstrap bootstrap = true
same_process deployment deployment = true
same_process _ _ = false

abbrev pub consumed_by : List Process → Process → Bool
consumed_by [] process = false
consumed_by (consumer ∷ consumers) process =
    if same_process consumer process then true else consumed_by consumers process

-- whether the inventory names the process among the setting's consumers
unfoldable pub consumes : Process → String → Bool
unfolding lookup
consumes process name = elim (lookup name inventory) [
  | none ↦ false
  | some class ↦ consumed_by class.consumers process
]

unfoldable pub values_for_process : Values → Process → Values
values_for_process [] process = []
values_for_process ((name, value) ∷ v) process =
    let filtered = values_for_process v process in
    if consumes process name then (name, value) ∷ filtered else filtered
