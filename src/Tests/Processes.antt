-- ===== src/Tests/Processes.antt =====
-- Runs of internal/runtime and internal/observability.
use nexus_relay.Common.{◌<◌, ◌≤◌, ◌≡◌, ◌⊎◌, refl, true, false, some, [], ◌∷◌, contains, All}
use nexus_relay.Runtime.Laws.Settles.{Calls, enters, calls, IsSettled, HasCall, Calls-IsSettled}
use nexus_relay.Observability.Http.{new_writer, header, body, serve}
use nexus_relay.Observability.Middleware.{Request, HttpMetrics}
use nexus_relay.Observability.Middleware.Series.{
  after_requests, no_requests, AreBounded, after_requests-AreBounded,
}
use nexus_relay.Observability.Http.{Call, received, write, write_header, send}
use nexus_relay.Common.{none, List}
use nexus_relay.Observability.Logging.{
  Slog, Record, scalar, redacted_value, allowed_events, handle, with_attrs,
}
use nexus_relay.Observability.Logging.Laws.{IsClean, handle-IsClean}
use nexus_relay.Runtime.{
  Caller, Watcher, State, Step, IsReached, begins, steps, starts, ends, watcher_clears,
  watcher_cancels, refuses,
}
use nexus_relay.Runtime.Laws.{IsReached-serve_cancelled, calls_left, IsReached-progress}

abbrev stopping : State
stopping = record {
  caller = Caller.running;
  watcher = Watcher.done;
  is_ready = false;
  ctx_done = true;
  finished = false;
  serve_cancelled = true;
}

stopping-IsReached : IsReached stopping
stopping-IsReached =
    steps
      (steps (steps (steps (begins false false) (starts refl refl)) ends)
        (watcher_clears refl refl))
      (watcher_cancels refl)

IsReached-serve_cancelled_example : stopping.is_ready ≡ false
IsReached-serve_cancelled_example = IsReached-serve_cancelled stopping-IsReached refl

abbrev refused : State
refused = record {
  caller = Caller.returned (some "context canceled");
  watcher = Watcher.idle;
  is_ready = false;
  ctx_done = true;
  finished = false;
  serve_cancelled = false;
}

refused-IsReached : IsReached refused
refused-IsReached = steps (begins true true) (refuses refl refl)

abbrev answers : List Call
answers = body ∷ header 500 ∷ []

-- 103 Early Hints before the response, whose own status is recorded nowhere
hinted_recorded : (serve (header 103 ∷ header 404 ∷ body ∷ []) new_writer).status ≡ 103
unfolding serve write write_header send
hinted_recorded = refl

hinted_received : received (serve (header 103 ∷ header 404 ∷ body ∷ []) new_writer).sent ≡ 200
unfolding serve write write_header send
hinted_received = refl

abbrev brewed : List (Request × List Call)
brewed =
    (
      record { method = "BREW"; path = "/v1/models"; elapsed = "3"; trace_id = none },
      header 418 ∷ [],
    )
    ∷ []

after_requests-AreBounded_example :
    (m : HttpMetrics) × ((after_requests brewed (some no_requests) ≡ some m) × AreBounded 1 m)
after_requests-AreBounded_example = after_requests-AreBounded brewed

abbrev slog : Slog
slog = record { resolve = λ v. v; to_lower = λ s. s }

abbrev logged : Record
logged = record {
  message = "user supplied";
  attributes = record { key = "password"; value = scalar "x" } ∷ [];
}

handle-IsClean_example :
    (((handle slog logged).message ≡ redacted_value)
      ⊎ (contains (handle slog logged).message allowed_events ≡ true))
    × All (IsClean slog) (handle slog logged).attributes
    × All (IsClean slog) (with_attrs slog [])
handle-IsClean_example = handle-IsClean slog logged []

refused-Calls : Calls 1 refused
refused-Calls = calls (enters true true) (refuses {error = "context canceled"} refl refl)

Calls-IsSettled_example : (1 ≤ 6) × (IsSettled refused ⊎ HasCall refused)
Calls-IsSettled_example = Calls-IsSettled refused-Calls

IsReached-progress_example :
    (calls_left stopping ≡ 0)
    ⊎ ((s : State) × Step stopping s × (calls_left s < calls_left stopping))
IsReached-progress_example = IsReached-progress stopping-IsReached
