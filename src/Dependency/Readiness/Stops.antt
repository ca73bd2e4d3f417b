-- ===== src/Dependency/Readiness/Stops.antt =====
-- That Run of internal/dependency/readiness.go returns when it is told to.
use nexus_relay.Common.{
  ℕ, ◌^◌, ◌<◌, ◌≡◌, refl, String, Bool, true, false, Option, some, List, [], ◌∷◌, length, is_empty,
  ap, ◌∙◌,
}
use nexus_relay.Dependency.Probes.{Probe, run_probes, all_finished}
use nexus_relay.Dependency.Readiness.{
  ReadinessPolicy, Phase, starting, waiting, abandoning, ready_loop, probing, clearing, stopping,
  returned, Outcome, served, after_round, after_event, return_with, enter_ready, Event, probed,
  startup_done, cancelled, server_told, serve_returned, State, step, Run, abandoned,
}
use nexus_relay.Dependency.Readiness.Invariant.{PhaseIsSound, Run-IsSound}

-- From this state Run returns if the startup's time is over or its context ends whenever it waits for
-- either: a round of probes may end in any way, and the server, once it has been told to stop, may
-- return anything.
pub data Stops (p : ReadinessPolicy) (probes : List Probe) : State → Type 0 where
  has_returned : {s : State} {outcome : Outcome} → s.phase ≡ returned outcome → Stops p probes s
  rounds :
      {s : State} (next : List ℕ → (ℕ → Bool) → State)
      → ((order : List ℕ) (fails : ℕ → Bool)
          → all_finished (length probes) order ≡ true
          → step p probes (probed order fails) s ≡ some (next order fails))
      → ((order : List ℕ) (fails : ℕ → Bool) → Stops p probes (next order fails))
      → Stops p probes s
  times_out :
      {s : State} (next : Bool → State)
      → ((ctx_done : Bool) → step p probes (startup_done ctx_done) s ≡ some (next ctx_done))
      → ((ctx_done : Bool) → Stops p probes (next ctx_done))
      → Stops p probes s
  is_cancelled :
      {s : State} (next : State)
      → step p probes cancelled s ≡ some next
      → Stops p probes next
      → Stops p probes s
  tells_server :
      {s : State} (next : State)
      → step p probes server_told s ≡ some next
      → Stops p probes next
      → Stops p probes s
  server_returns :
      {s : State} (next : Option String → State)
      → s.serve_cancelled ≡ true
      → ((r : Option String) → step p probes (serve_returned r) s ≡ some (next r))
      → ((r : Option String) → Stops p probes (next r))
      → Stops p probes s

module _ (p : ReadinessPolicy) (probes : List Probe) where
  -- in `<-serveResult`, with the server told to stop
  answered :
      (s : State) (phase : Phase) (outcome : Option String → Outcome)
      → s.phase ≡ phase
      → s.serve_cancelled ≡ true
      → ((r : Option String)
          → after_event p phase (serve_returned r) s ≡ some (return_with (outcome r) s))
      → Stops p probes s
  unfolding step
  answered s phase outcome e told h =
      server_returns (λ r. return_with (outcome r) s) told
        (λ r. ap (λ x. after_event p x (serve_returned r) s) e ∙ h r) (λ r. has_returned refl)

  ready_loop-Stops : (s : State) → s.phase ≡ ready_loop → Stops p probes s
  unfolding step
  ready_loop-Stops s e =
      let cleared = record s { phase = clearing; calls = false ∷ s.calls } in
      let told = record cleared { phase = stopping; serve_cancelled = true } in
      is_cancelled cleared (ap (λ x. after_event p x cancelled s) e)
        (tells_server told refl (answered told stopping served refl refl (λ r. refl)))

  waiting-Stops :
      (s : State) (delay : ℕ) (failed : List String)
      → s.phase ≡ waiting delay failed
      → Stops p probes s
  unfolding step
  waiting-Stops s delay failed e =
      times_out (λ c. record s { phase = abandoning c failed; serve_cancelled = true })
        (λ c. ap (λ x. after_event p x (startup_done c) s) e)
        (λ c. answered _ (abandoning c failed) (abandoned c failed) refl refl (λ r. refl))

  entered-Stops :
      (failed : List String) (delay : ℕ) (s : State) → Stops p probes (enter_ready failed delay s)
  entered-Stops [] delay s = ready_loop-Stops _ refl
  entered-Stops (name ∷ names) delay s = waiting-Stops _ delay (name ∷ names) refl

  round_taken :
      (s : State) (phase : Phase) (next : List String → State)
      → s.phase ≡ phase
      → ((failed : List String) → after_round phase failed s ≡ some (next failed))
      → ((failed : List String) → Stops p probes (next failed))
      → Stops p probes s
  unfolding step
  round_taken s phase next e h later =
      rounds (λ order fails. next (run_probes order fails probes))
        (λ order fails done. rw done (
          ap (λ x. after_round x (run_probes order fails probes) s) e
          ∙ h (run_probes order fails probes)))
        (λ order fails. later (run_probes order fails probes))

  Stops-at :
      (events : List Event) (s : State) (phase : Phase)
      → s.phase ≡ phase
      → PhaseIsSound p probes events s phase
      → Stops p probes s
  unfolding step
  Stops-at events s (starting delay) e h =
      round_taken s (starting delay) (λ failed. enter_ready failed delay s) e (λ failed. refl)
        (λ failed. entered-Stops failed delay s)
  Stops-at events s (waiting delay failed) e h = waiting-Stops s delay failed e
  Stops-at events s (abandoning c failed) e h =
      answered s (abandoning c failed) (abandoned c failed) e h.3 (λ r. refl)
  Stops-at events s ready_loop e h = ready_loop-Stops s e
  Stops-at events s probing e h =
      round_taken s probing
        (λ failed. record s { phase = ready_loop; calls = is_empty failed ∷ s.calls }) e
        (λ failed. refl) (λ failed. ready_loop-Stops _ refl)
  Stops-at events s clearing e h =
      let told = record s { phase = stopping; serve_cancelled = true } in
      tells_server told (ap (λ x. after_event p x server_told s) e)
        (answered told stopping served refl refl (λ r. refl))
  Stops-at events s stopping e h = answered s stopping served e h.1 (λ r. refl)
  Stops-at events s (returned outcome) e h = has_returned e

-- With retry delays of less than 2^62 ns, from every state of a run Run returns if the startup's time
-- is over or its context ends whenever it waits for either: whatever the probes answer and whatever the
-- server returns, which it need not do before it is told to stop.
pub Run-Stops :
    {p : ReadinessPolicy} {probes : List Probe} {events : List Event} {s : State}
    → p.retry_maximum < 2 ^ 62
    → Run p probes events s
    → Stops p probes s
Run-Stops {p} {probes} {events} {s} small run =
    Stops-at p probes events s s.phase refl (Run-IsSound small run)
