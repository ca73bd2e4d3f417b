-- ===== src/Config/Preflight/Laws.antt =====
-- What preflight accepts, and that the settings selected for a process always pass it.
use nexus_relay.Common.{
  String, true, false, ◌≡◌, ◌↔◌, refl, none, List, [], ◌∷◌, arith, lookup, eq_iff, if◌then◌else◌,
  All, ok, >>-eq-ok_iff, ◌⊎◌, inl, inr, Bool, Bool-cases, contains, is_some, ◌||◌,
}
use nexus_relay.Config.Inventory.{
  Process, gateway, control_plane, worker, bootstrap, deployment, inventory, is_known,
  obsolete_settings, unmistakable_owned_prefixes,
}
use nexus_relay.Common.Text.{has_prefix}
use nexus_relay.Config.Preflight.{
  is_undocumented, check_names, command_only_settings, check_command_only, is_service, preflight,
  consumes, values_for_process, has_one_of,
}
use nexus_relay.Config.Setting.{Values}

-- The rule for the name of a setting: the inventory has it, or it is neither obsolete nor does it begin
-- with a prefix that is unmistakably the program's own.
abbrev pub IsAllowed : String × String → Type 0
IsAllowed entry =
    (is_some (lookup entry.0 inventory) ≡ true)
    ⊎ ((contains entry.0 obsolete_settings ≡ false)
        × All (λ prefix. has_prefix entry.0 prefix ≡ false) unmistakable_owned_prefixes)

no_prefix_iff :
    (prefixes : List String) (name : String)
    → (has_one_of prefixes name ≡ false) ↔ All (λ prefix. has_prefix name prefix ≡ false) prefixes
no_prefix_iff [] name = ground arith
no_prefix_iff (prefix ∷ prefixes) name = ground (arith, no_prefix_iff prefixes name)

either_iff {ℓ} :
    {P : Type ℓ} (known obsolete owned : Bool)
    → ((owned ≡ false) ↔ P)
    → ((if known then false else obsolete || owned) ≡ false)
      ↔ ((known ≡ true) ⊎ ((obsolete ≡ false) × P))
either_iff true obsolete owned h = (λ _. inl refl, λ _. refl)
either_iff false true owned h = (λ e. cc, λ e. elim e [ inl k ↦ cc | inr (o, _) ↦ cc ])
either_iff false false owned h =
    (λ e. inr (refl, h.0 e), λ e. elim e [ inl k ↦ cc | inr (_, p) ↦ h.1 p ])

IsAllowed-iff : (name value : String) → (is_undocumented name ≡ false) ↔ IsAllowed (name, value)
unfolding is_undocumented is_known
IsAllowed-iff name value =
    either_iff (is_some (lookup name inventory)) (contains name obsolete_settings)
      (has_one_of unmistakable_owned_prefixes name) (no_prefix_iff unmistakable_owned_prefixes name)

check_names_iff : (v : Values) → (check_names v ≡ ok tt) ↔ All IsAllowed v
unfolding check_names
check_names_iff [] = ground arith
check_names_iff ((name, value) ∷ v) = elim (Bool-cases (is_undocumented name)) [
  | inl refused ↦ (
    λ e. let bad = rw refused at e in cc,
    λ (here, _). let bad = (IsAllowed-iff name value).1 here in cc,
  )
  | inr fine ↦ (
    λ e. ((IsAllowed-iff name value).0 fine, (check_names_iff v).0 (rw fine at e)),
    λ (_, later). rw fine ((check_names_iff v).1 later),
  )
]

check_command_only_iff :
    (v : Values) (names : List String)
    → (check_command_only v names ≡ ok tt) ↔ All (λ name. lookup name v ≡ none) names
unfolding check_command_only
check_command_only_iff v [] = ground arith
check_command_only_iff v (name ∷ names) = ground (arith, check_command_only_iff v names)

service_iff :
    (v : Values) (process : Process)
    → is_service process ≡ true
    → (preflight v process ≡ ok tt) ↔ (
        All IsAllowed v
        × (is_service process ≡ true → All (λ name. lookup name v ≡ none) command_only_settings))
unfolding preflight
service_iff v process h =
    let names = check_names_iff v in
    let command_only = check_command_only_iff v command_only_settings in
    let both = >>-eq-ok_iff (check_names v) (check_command_only v command_only_settings) in
    (
      λ e.
          let (documented, absent) = both.0 (rw h at e) in
          (names.0 documented, λ _. command_only.0 absent),
      λ (documented, absent). rw h (both.1 (names.1 documented, command_only.1 (absent h))),
    )

command_iff :
    (v : Values) (process : Process)
    → is_service process ≡ false
    → (preflight v process ≡ ok tt) ↔ (
        All IsAllowed v
        × (is_service process ≡ true → All (λ name. lookup name v ≡ none) command_only_settings))
unfolding preflight
command_iff v process h =
    let names = check_names_iff v in
    let both = >>-eq-ok_iff (check_names v) (ok tt) in
    (
      λ e. (names.0 (both.0 (rw h at e)).0, λ service. absurd (ground arith)),
      λ (allowed, _). rw h (both.1 (names.1 allowed, refl)),
    )

-- Preflight accepts settings exactly when the name of each is in the inventory, or is neither obsolete
-- nor begins with a prefix that is unmistakably the program's own, and when, for a long-running
-- service, none of the bootstrap command's settings is among them.
pub preflight_iff :
    (v : Values) (process : Process)
    → (preflight v process ≡ ok tt) ↔ (
        All IsAllowed v
        × (is_service process ≡ true → All (λ name. lookup name v ≡ none) command_only_settings))
preflight_iff v gateway = service_iff v gateway refl
preflight_iff v control_plane = service_iff v control_plane refl
preflight_iff v worker = service_iff v worker refl
preflight_iff v bootstrap = command_iff v bootstrap refl
preflight_iff v deployment = command_iff v deployment refl

-- A setting is seen by a process with the value that the deployment gives it if the inventory
-- names the process as a consumer, and not at all otherwise.
pub lookup-values_for_process :
    (v : Values) (process : Process) (name : String)
    → lookup name (values_for_process v process)
      ≡ (if consumes process name then lookup name v else none)
unfolding lookup values_for_process
lookup-values_for_process [] process name = ground arith
lookup-values_for_process ((k, x) ∷ v) process name =
    ground (arith, lookup-values_for_process v process name, eq_iff k name)

consumes-is_known :
    (process : Process) (name : String) → consumes process name ≡ true → is_known name ≡ true
unfolding consumes is_known
consumes-is_known process name h = ground arith

values_for_process-IsAllowed :
    (v : Values) (process : Process) → All IsAllowed (values_for_process v process)
unfolding values_for_process is_known
values_for_process-IsAllowed [] process = tt
values_for_process-IsAllowed ((name, x) ∷ v) process = elim (Bool-cases (consumes process name)) [
  | inl seen ↦
      rw seen (inl (consumes-is_known process name seen), values_for_process-IsAllowed v process)
  | inr unseen ↦ rw unseen (values_for_process-IsAllowed v process)
]

unseen :
    (v : Values) (process : Process) (names : List String)
    → All (λ name. consumes process name ≡ false) names
    → All (λ name. lookup name (values_for_process v process) ≡ none) names
unseen v process [] h = tt
unseen v process (name ∷ names) (none_here, h) =
    (rw (lookup-values_for_process, none_here), unseen v process names h)

-- No setting of the bootstrap command has a long-running service as a consumer.
command_only_unconsumed :
    (process : Process)
    → is_service process ≡ true
    → All (λ name. consumes process name ≡ false) command_only_settings
unfolding consumes inventory
command_only_unconsumed gateway h = (refl, (refl, (refl, (refl, (refl, tt)))))
command_only_unconsumed control_plane h = (refl, (refl, (refl, (refl, (refl, tt)))))
command_only_unconsumed worker h = (refl, (refl, (refl, (refl, (refl, tt)))))
command_only_unconsumed _ h = cc

-- The settings selected for a process always pass its preflight, whatever the deployment gives.
pub preflight-values_for_process :
    (v : Values) (process : Process) → preflight (values_for_process v process) process ≡ ok tt
preflight-values_for_process v process = (preflight_iff (values_for_process v process) process).1 (
  values_for_process-IsAllowed v process,
  λ service. unseen v process command_only_settings (command_only_unconsumed process service),
)
