-- ===== src/Runtime.antt =====
-- internal/runtime/runtime.go: RunWithoutReadiness, and RunInitialized as the steps of its two goroutines, one of which runs
-- the server and the other waits for the end of the context.
pub mod Laws
use nexus_relay.Common.{◌≡◌, String, Bool, true, false, Option, none, some, List, [], ◌∷◌}

-- RunWithoutReadiness: `run` gets the calls of setReady so far, the latest first, and adds its own.
unfoldable pub run_without_readiness :
    (List Bool → Option String × List Bool) → List Bool → Option String × List Bool
run_without_readiness run calls =
    let (result, later) = run (false ∷ calls) in (result, false ∷ later)

-- The function's own progress: before `run`, in `run`, and behind each of the calls after it.
pub data Caller : Type 0 where
  entered running : Caller
  -- `run` came back, `finished` is closed, readiness is cleared; then cancel and the return
  closing cleared : Option String → Caller
  returned : Option String → Caller

-- the goroutine: not started, in its `select`, behind setReady(false), at its end
pub data Watcher : Type 0 where
  idle selecting clearing done : Watcher

pub record State : Type 0 where
  pub caller : Caller
  pub watcher : Watcher
  pub is_ready : Bool
  pub ctx_done : Bool
  pub finished : Bool
  pub serve_cancelled : Bool

abbrev pub initial : Bool → Bool → State
initial is_ready ctx_done = record {
  caller = Caller.entered;
  watcher = Watcher.idle;
  is_ready = is_ready;
  ctx_done = ctx_done;
  finished = false;
  serve_cancelled = false;
}

pub data Step : State → State → Type 0 where
  -- the context of the caller ends, at any time
  ends : {s : State} → Step s (record s { ctx_done = true })
  -- ctx.Err() is an error at the start, and is returned
  refuses :
      {s : State} {error : String}
      → s.caller ≡ Caller.entered
      → s.ctx_done ≡ true
      → Step s (record s { caller = Caller.returned (some error); is_ready = false })
  -- setReady(true), and the goroutine starts
  starts :
      {s : State}
      → s.caller ≡ Caller.entered
      → s.ctx_done ≡ false
      → Step s (record s { caller = Caller.running; watcher = Watcher.selecting; is_ready = true })
  -- `run` comes back, and `finished` is closed
  runs :
      {s : State} {result : Option String}
      → s.caller ≡ Caller.running
      → Step s (record s { caller = Caller.closing result; finished = true })
  clears :
      {s : State} {result : Option String}
      → s.caller ≡ Caller.closing result
      → Step s (record s { caller = Caller.cleared result; is_ready = false })
  returns :
      {s : State} {result : Option String}
      → s.caller ≡ Caller.cleared result
      → Step s (record s { caller = Caller.returned result; serve_cancelled = true })
  -- the goroutine's cases: `<-ctx.Done()` with its two calls, and `<-finished`
  watcher_clears :
      {s : State}
      → s.watcher ≡ Watcher.selecting
      → s.ctx_done ≡ true
      → Step s (record s { watcher = Watcher.clearing; is_ready = false })
  watcher_cancels :
      {s : State}
      → s.watcher ≡ Watcher.clearing
      → Step s (record s { watcher = Watcher.done; serve_cancelled = true })
  watcher_ends :
      {s : State}
      → s.watcher ≡ Watcher.selecting
      → s.finished ≡ true
      → Step s (record s { watcher = Watcher.done })

-- the states that RunInitialized reaches under any scheduling
pub data IsReached : State → Type 0 where
  begins : (is_ready ctx_done : Bool) → IsReached (initial is_ready ctx_done)
  steps : {s s' : State} → IsReached s → Step s s' → IsReached s'
