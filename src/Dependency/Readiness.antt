-- ===== src/Dependency/Readiness.antt =====
-- internal/dependency/readiness.go: Run, as steps between the points where it waits. Durations are
-- nanoseconds in 64 bits; a negative one is written as its two's complement.
pub mod Invariant
pub mod Laws
pub mod Stops
use nexus_relay.Common.{
  ℕ, zero, suc, ◌*◌, ◌%◌, ◌^◌, ◌≡◌, min, String, Bool, true, false, not, ◌&&◌, ◌||◌, Option, none,
  some, List, [], ◌∷◌, ltb, leb, if◌then◌else◌, is_empty, any, length, Error, plain, Result, ok,
  ◌>>=◌, ◌>>◌, fail_if, ◌==◌,
}
use nexus_relay.Dependency.Probes.{Probe, run_probes, all_finished}

pub record ReadinessPolicy : Type 0 where
  pub startup_timeout : ℕ
  pub probe_timeout : ℕ
  pub probe_interval : ℕ
  pub retry_minimum : ℕ
  pub retry_maximum : ℕ

-- `d <= 0`, of two's complement
abbrev pub is_not_positive : ℕ → Bool
is_not_positive d = leb d 0 || leb (2 ^ 63) d

unfoldable pub validate : ReadinessPolicy → Result (Unit {0})
validate p =
    fail_if
      (is_not_positive p.startup_timeout
        || is_not_positive p.probe_timeout
        || is_not_positive p.probe_interval
        || is_not_positive p.retry_minimum
        || leb (2 ^ 63) p.retry_maximum
        || ltb p.retry_maximum p.retry_minimum)
      (plain "invalid dependency readiness policy")

-- What Run returns: the result of the server, which is an error or nil, or its own error that names
-- the dependencies that were unavailable.
pub data Outcome : Type 0 where
  served : Option String → Outcome
  startup_timed_out : List String → Outcome

pub data Phase : Type 0 where
  -- the first loop: in runProbes, and in the `select` with the delay of its timer
  starting : ℕ → Phase
  waiting : ℕ → List String → Phase
  -- after startupContext is done: in `<-serveResult`, with `ctx.Err() != nil` and the failed probes
  abandoning : Bool → List String → Phase
  -- the second loop: in its `select`, and in runProbes
  ready_loop probing : Phase
  -- after ctx is done: behind setReady(false), and in `<-serveResult` behind cancelServe()
  clearing stopping : Phase
  returned : Outcome → Phase

pub data Event : Type 0 where
  -- runProbes: the order in which its goroutines finish, and which pings fail
  probed : List ℕ → (ℕ → Bool) → Event
  -- a timer or the ticker fires
  timer_fired ticked : Event
  -- startupContext is done; the flag is what `ctx.Err() != nil` gives when it is read, which is after
  -- the server's result
  startup_done : Bool → Event
  -- ctx is done, and setReady(false) is called; then cancelServe is
  cancelled : Event
  server_told : Event
  -- the server's result arrives
  serve_returned : Option String → Event

-- the calls of `setReady`, the latest first, and whether cancelServe was called
pub record State : Type 0 where
  pub phase : Phase
  pub calls : List Bool
  pub serve_cancelled : Bool

abbrev pub initial : ReadinessPolicy → State
initial p = record { phase = starting p.retry_minimum; calls = false ∷ []; serve_cancelled = false }

unfoldable pub start : ReadinessPolicy → List Probe → Result State
start p probes = do
  validate p
  fail_if (is_empty probes) (plain "dependency readiness requires at least one probe")
  fail_if (any (λ probe. probe.name == "" || not probe.has_ping) probes)
      (plain "dependency readiness probe is invalid")
  ok (initial p)

-- min(retryDelay*2, policy.RetryMaximum), of 64-bit integers
abbrev pub next_delay : ReadinessPolicy → ℕ → ℕ
next_delay p delay =
    let twice = delay * 2 % 2 ^ 64 in
    if leb (2 ^ 63) twice then twice else min twice p.retry_maximum

-- `return`, with the deferred cancelServe and setReady(false); the server has returned by then
abbrev return_with : Outcome → State → State
return_with outcome s = record {
  phase = returned outcome;
  calls = false ∷ s.calls;
  serve_cancelled = true;
}

abbrev enter_ready : List String → ℕ → State → State
enter_ready [] delay s = record s { phase = ready_loop; calls = true ∷ s.calls }
enter_ready (name ∷ names) delay s = record s { phase = waiting delay (name ∷ names) }

-- after `<-serveResult`: ctx's end and an error of the server come before the timeout
abbrev abandoned : Bool → List String → Option String → Outcome
abandoned true failed result = served result
abandoned false failed (some e) = served (some e)
abandoned false failed none = startup_timed_out failed

-- the end of a round of probes, which takes the end of each goroutine
abbrev after_round : Phase → List String → State → Option State
after_round (starting delay) failed s = some (enter_ready failed delay s)
after_round probing failed s =
    some (record s { phase = ready_loop; calls = is_empty failed ∷ s.calls })
after_round _ failed s = none

-- The other events, by what the code waits for; an event it does not wait for is no step.
abbrev after_event : ReadinessPolicy → Phase → Event → State → Option State
after_event p (waiting delay failed) timer_fired s =
    some (record s { phase = starting (next_delay p delay) })
after_event p (waiting delay failed) (startup_done c) s =
    some (record s { phase = abandoning c failed; serve_cancelled = true })
after_event p (waiting delay failed) (serve_returned r) s = some (return_with (served r) s)
after_event p (abandoning c failed) (serve_returned r) s =
    some (return_with (abandoned c failed r) s)
after_event p ready_loop ticked s = some (record s { phase = probing })
after_event p ready_loop (serve_returned r) s = some (return_with (served r) s)
after_event p ready_loop cancelled s = some (record s { phase = clearing; calls = false ∷ s.calls })
after_event p clearing server_told s = some (record s { phase = stopping; serve_cancelled = true })
after_event p stopping (serve_returned r) s = some (return_with (served r) s)
after_event p _ _ s = none

unfoldable pub step : ReadinessPolicy → List Probe → Event → State → Option State
unfolding run_probes
step p probes (probed order fails) s =
    if all_finished (length probes) order
    then after_round s.phase (run_probes order fails probes) s
    else none
step p probes event s = after_event p s.phase event s

-- A run of the code: its events, the latest first, and the state behind them.
pub data Run (p : ReadinessPolicy) (probes : List Probe) : List Event → State → Type 0 where
  started : {s : State} → start p probes ≡ ok s → Run p probes [] s
  stepped :
      {events : List Event} {s s' : State} {event : Event}
      → Run p probes events s
      → step p probes event s ≡ some s'
      → Run p probes (event ∷ events) s'
