-- ===== src/Dependency/Readiness/Invariant.antt =====
-- The invariant of Run in internal/dependency/readiness.go.
use native.Mathlib.Nat.{pow-succ'}
use nexus_relay.Common.{
  ◌∙◌, ap, Bool-cases, inl, inr, ℕ, suc, ◌*◌, ◌^◌, ◌≤◌, ◌<◌, ◌≡◌, refl, min, String, Bool, true,
  false, Option, none, some, List, [], ◌∷◌, is_empty, length, arith,
}
use nexus_relay.Common.Ensures.{Ensures, holds, Ensures-map, Ensures-ok, ◌≫◌, fail_if-Ensures}
use nexus_relay.Dependency.Probes.{Probe, all_finished}
use nexus_relay.Dependency.Probes.Order.{failing, run_probes-failing}
use nexus_relay.Dependency.Readiness.{
  served, startup_timed_out, after_round, after_event, ReadinessPolicy, validate, Phase, starting,
  waiting, abandoning, ready_loop, probing, clearing, stopping, returned, Event, probed,
  timer_fired, ticked, startup_done, cancelled, server_told, serve_returned, State, initial, start,
  step, Run, started, stepped, next_delay,
}

-- What the last call of setReady said.
abbrev pub is_ready : List Bool → Bool
is_ready [] = false
is_ready (b ∷ _) = b

-- The probes that failed in the last round, by the pings' results alone.
abbrev pub last_failed : List Probe → List Event → List String
last_failed probes [] = []
last_failed probes (probed order fails ∷ events) = failing fails 0 probes
last_failed probes (_ ∷ events) = last_failed probes events

-- The number of retries.
abbrev pub retries : List Event → ℕ
retries [] = 0
retries (timer_fired ∷ events) = suc (retries events)
retries (_ ∷ events) = retries events

-- The delay behind that many retries: doubled each time, up to the maximum.
abbrev pub backoff : ReadinessPolicy → ℕ → ℕ
backoff p n = min (p.retry_minimum * 2 ^ n) p.retry_maximum

abbrev pub PhaseIsSound : ReadinessPolicy → List Probe → List Event → State → Phase → Type 0
PhaseIsSound p probes events s (starting delay) =
    (is_ready s.calls ≡ false) × (s.serve_cancelled ≡ false) × (delay ≡ backoff p (retries events))
PhaseIsSound p probes events s (waiting delay failed) =
    (is_ready s.calls ≡ false)
    × (s.serve_cancelled ≡ false)
    × (delay ≡ backoff p (retries events))
    × (failed ≡ last_failed probes events)
    × (is_empty failed ≡ false)
PhaseIsSound p probes events s (abandoning c failed) =
    (is_ready s.calls ≡ false)
    × (failed ≡ last_failed probes events)
    × (is_empty failed ≡ false)
    × (s.serve_cancelled ≡ true)
PhaseIsSound p probes events s ready_loop =
    (is_ready s.calls ≡ is_empty (last_failed probes events)) × (s.serve_cancelled ≡ false)
PhaseIsSound p probes events s probing =
    (is_ready s.calls ≡ is_empty (last_failed probes events)) × (s.serve_cancelled ≡ false)
PhaseIsSound p probes events s clearing = (is_ready s.calls ≡ false) × (s.serve_cancelled ≡ false)
PhaseIsSound p probes events s stopping = (is_ready s.calls ≡ false) × (s.serve_cancelled ≡ true)
PhaseIsSound p probes events s (returned (served r)) =
    (is_ready s.calls ≡ false) × (s.serve_cancelled ≡ true)
PhaseIsSound p probes events s (returned (startup_timed_out names)) =
    (is_ready s.calls ≡ false)
    × (s.serve_cancelled ≡ true)
    × (names ≡ last_failed probes events)
    × (is_empty names ≡ false)

abbrev pub IsSound : ReadinessPolicy → List Probe → List Event → State → Type 0
IsSound p probes events s = PhaseIsSound p probes events s s.phase

doubled_delay :
    (p : ReadinessPolicy) (x : ℕ)
    → p.retry_maximum < 2 ^ 62
    → next_delay p (min x p.retry_maximum) ≡ min (2 * x) p.retry_maximum
doubled_delay p x small = ground arith

product_moves : (d n : ℕ) → 2 * (d * 2 ^ n) ≡ d * 2 ^ suc n
product_moves d n = rw pow-succ' (omega arith)

next_delay-backoff :
    (p : ReadinessPolicy) (n : ℕ)
    → p.retry_maximum < 2 ^ 62
    → next_delay p (backoff p n) ≡ backoff p (suc n)
next_delay-backoff p n small =
    doubled_delay p (p.retry_minimum * 2 ^ n) small
    ∙ ap (λ x. min x p.retry_maximum) (product_moves p.retry_minimum n)

-- what holds of the next state, if there is one
abbrev Next : (State → Type 0) → Option State → Type 0
Next P none = Unit
Next P (some s) = P s

Next-some : (P : State → Type 0) (o : Option State) {s : State} → o ≡ some s → Next P o → P s
Next-some P o e h = rw e at h

module _ (p : ReadinessPolicy) (probes : List Probe) (events : List Event) (s : State) where
  round-IsSound :
      (phase : Phase) (order : List ℕ) (fails : ℕ → Bool) (failed : List String)
      → failed ≡ failing fails 0 probes
      → PhaseIsSound p probes events s phase
      → Next (IsSound p probes (probed order fails ∷ events)) (after_round phase failed s)
  round-IsSound (starting delay) order fails [] e h = ground arith
  round-IsSound (starting delay) order fails (name ∷ names) e h = ground arith
  round-IsSound probing order fails failed e h = ground arith
  round-IsSound (waiting _ _) order fails failed e h = tt
  round-IsSound (abandoning _ _) order fails failed e h = tt
  round-IsSound ready_loop order fails failed e h = tt
  round-IsSound clearing order fails failed e h = tt
  round-IsSound stopping order fails failed e h = tt
  round-IsSound (returned _) order fails failed e h = tt

  event-IsSound :
      (phase : Phase) (event : Event)
      → p.retry_maximum < 2 ^ 62
      → PhaseIsSound p probes events s phase
      → Next (IsSound p probes (event ∷ events)) (after_event p phase event s)
  event-IsSound (waiting delay failed) timer_fired small h =
      ground (arith, next_delay-backoff p (retries events) small)
  event-IsSound (waiting delay failed) (startup_done c) small h = ground arith
  event-IsSound (waiting delay failed) (serve_returned r) small h = ground arith
  event-IsSound (abandoning true failed) (serve_returned r) small h = ground arith
  event-IsSound (abandoning false failed) (serve_returned (some r)) small h = ground arith
  event-IsSound (abandoning false failed) (serve_returned none) small h = ground arith
  event-IsSound ready_loop ticked small h = ground arith
  event-IsSound ready_loop (serve_returned r) small h = ground arith
  event-IsSound ready_loop cancelled small h = ground arith
  event-IsSound clearing server_told small h = ground arith
  event-IsSound stopping (serve_returned r) small h = ground arith
  event-IsSound phase event small h = tt

first_delay :
    (p : ReadinessPolicy) → p.retry_minimum ≤ p.retry_maximum → p.retry_minimum ≡ backoff p 0
first_delay p h = omega arith

-- what Run checks of the delays before it starts
validate-Ensures :
    (p : ReadinessPolicy) → Ensures (λ _. p.retry_minimum ≤ p.retry_maximum) (validate p)
unfolding validate
validate-Ensures p = Ensures-map (λ _ e. ground (arith, e)) (fail_if-Ensures _ _)

start-Ensures :
    (p : ReadinessPolicy) (probes : List Probe) → Ensures (IsSound p probes []) (start p probes)
unfolding start
start-Ensures p probes = validate-Ensures p ≫ λ _ ordered. fail_if-Ensures _ _ ≫ λ _ _.
    fail_if-Ensures _ _ ≫ λ _ _. holds {a = initial p} (refl, refl, first_delay p ordered)

step-IsSound :
    (p : ReadinessPolicy) (probes : List Probe) (events : List Event) (s s' : State) (event : Event)
    → p.retry_maximum < 2 ^ 62
    → IsSound p probes events s
    → step p probes event s ≡ some s'
    → IsSound p probes (event ∷ events) s'
unfolding step
step-IsSound p probes events s s' (probed order fails) small h e =
    elim (Bool-cases (all_finished (length probes) order)) [
      | inl done ↦
          Next-some _ (after_round s.phase (failing fails 0 probes) s)
            (rw (done, run_probes-failing order fails probes done) at e)
            (round-IsSound p probes events s s.phase order fails _ refl h)
      | inr early ↦ ground arith
    ]
step-IsSound p probes events s s' timer_fired small h e =
    Next-some _ _ e (event-IsSound p probes events s s.phase timer_fired small h)
step-IsSound p probes events s s' event small h e =
    Next-some _ _ e (event-IsSound p probes events s s.phase event small h)

-- Every state that Run reaches is sound, whatever the server, the clock and the probes do.
pub Run-IsSound :
    {p : ReadinessPolicy} {probes : List Probe} {events : List Event} {s : State}
    → p.retry_maximum < 2 ^ 62
    → Run p probes events s
    → IsSound p probes events s
Run-IsSound {p} {probes} small (started e) = Ensures-ok (rw e at (start-Ensures p probes))
Run-IsSound {p} {probes} small (stepped {events} {s} {s'} {event} run e) =
    step-IsSound p probes events s s' event small (Run-IsSound small run) e
