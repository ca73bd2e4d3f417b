-- ===== src/Runtime/Laws.antt =====
-- Readiness under every scheduling of RunInitialized's goroutines, internal/runtime/runtime.go.
pub mod Settles
use nexus_relay.Common.{
  ℕ, ◌+◌, ◌<◌, ◌≤◌, ◌≡◌, ◌⊎◌, inl, inr, refl, ◌||◌, none, String, Bool, true, false, Option, arith,
  Bool-cases,
}
use nexus_relay.Runtime.{
  Caller, Watcher, State, Step, ends, refuses, starts, runs, clears, returns, watcher_clears,
  watcher_cancels, watcher_ends, IsReached, begins, steps,
}

-- behind the call that clears readiness, or not in need of it
abbrev caller_cleared : Caller → Bool
caller_cleared (Caller.cleared _) = true
caller_cleared (Caller.returned _) = true
caller_cleared _ = false

abbrev is_entered : Caller → Bool
is_entered Caller.entered = true
is_entered _ = false

abbrev is_idle : Watcher → Bool
is_idle Watcher.idle = true
is_idle _ = false

record IsSafe (s : State) : Type 0 where
  caller_clear : caller_cleared s.caller ≡ true → s.is_ready ≡ false
  watcher_clear : s.watcher ≡ Watcher.clearing → s.is_ready ≡ false
  serve_clear : s.serve_cancelled ≡ true → s.is_ready ≡ false
  entered_idle :
      is_entered s.caller ≡ true → (s.watcher ≡ Watcher.idle) × (s.serve_cancelled ≡ false)

Step-IsSafe : (s s' : State) → Step s s' → IsSafe s → IsSafe s'
Step-IsSafe s s' ends h = ground arith
Step-IsSafe s s' (refuses c d) h = ground arith
Step-IsSafe s s' (starts c d) h = ground arith
Step-IsSafe s s' (runs c) h = ground arith
Step-IsSafe s s' (clears c) h = ground arith
Step-IsSafe s s' (returns c) h = ground arith
Step-IsSafe s s' (watcher_clears w d) h = ground arith
Step-IsSafe s s' (watcher_cancels w) h = ground arith
Step-IsSafe s s' (watcher_ends w f) h = ground arith

reached-IsSafe : {s : State} → IsReached s → IsSafe s
reached-IsSafe (begins r c) = ground arith
reached-IsSafe (steps {s} {s'} r t) = Step-IsSafe s s' t (reached-IsSafe r)

-- Whatever the order of the steps, the context of the server is cancelled only when readiness has been
-- cleared.
pub IsReached-serve_cancelled :
    {s : State} → IsReached s → s.serve_cancelled ≡ true → s.is_ready ≡ false
IsReached-serve_cancelled r h = (reached-IsSafe r).serve_clear h

-- When RunInitialized has returned, the process is not ready, whatever steps its goroutine took before
-- or after.
pub IsReached-returned :
    {s : State} {result : Option String}
    → IsReached s
    → s.caller ≡ Caller.returned result
    → s.is_ready ≡ false
IsReached-returned r e = ground (arith, reached-IsSafe r, e)

-- The calls that the two goroutines still have to make.
abbrev caller_left : Caller → ℕ
caller_left Caller.entered = 6
caller_left Caller.running = 3
caller_left (Caller.closing _) = 2
caller_left (Caller.cleared _) = 1
caller_left (Caller.returned _) = 0

abbrev watcher_left : Watcher → ℕ
watcher_left Watcher.idle = 0
watcher_left Watcher.selecting = 2
watcher_left Watcher.clearing = 1
watcher_left Watcher.done = 0

unfoldable pub calls_left : State → ℕ
calls_left s = caller_left s.caller + watcher_left s.watcher

-- `run` has come back, or was never called
abbrev is_past : Caller → Bool
is_past Caller.entered = false
is_past Caller.running = false
is_past _ = true

-- The goroutine starts after the function does, and finds `finished` closed once `run` has come back.
record IsWaited (s : State) : Type 0 where
  entered_alone : is_entered s.caller ≡ true → is_idle s.watcher ≡ true
  finishes : is_past s.caller ≡ true → (s.finished || is_idle s.watcher) ≡ true

Step-IsWaited : (s s' : State) → Step s s' → IsWaited s → IsWaited s'
Step-IsWaited s s' ends h = ground arith
Step-IsWaited s s' (refuses c d) h = ground arith
Step-IsWaited s s' (starts c d) h = ground arith
Step-IsWaited s s' (runs c) h = ground arith
Step-IsWaited s s' (clears c) h = ground arith
Step-IsWaited s s' (returns c) h = ground arith
Step-IsWaited s s' (watcher_clears w d) h = ground arith
Step-IsWaited s s' (watcher_cancels w) h = ground arith
Step-IsWaited s s' (watcher_ends w f) h = ground arith

reached-IsWaited : {s : State} → IsReached s → IsWaited s
reached-IsWaited (begins r c) = ground arith
reached-IsWaited (steps {s} {s'} r t) = Step-IsWaited s s' t (reached-IsWaited r)

-- A step that lowers the number of calls.
abbrev Proceeds : State → Type 0
Proceeds s = (s' : State) × Step s s' × (calls_left s' < calls_left s)

watcher_progress :
    (s : State) (w : Watcher) {result : Option String}
    → s.caller ≡ Caller.returned result
    → s.watcher ≡ w
    → IsWaited s
    → (calls_left s ≡ 0) ⊎ Proceeds s
unfolding calls_left
watcher_progress s Watcher.idle e f h = inl (ground arith)
watcher_progress s Watcher.done e f h = inl (ground arith)
watcher_progress s Watcher.clearing e f h = inr (_, watcher_cancels f, ground arith)
watcher_progress s Watcher.selecting e f h = inr (_, watcher_ends f (ground arith), ground arith)

caller_progress :
    (s : State) (c : Caller) → s.caller ≡ c → IsWaited s → (calls_left s ≡ 0) ⊎ Proceeds s
unfolding calls_left
caller_progress s Caller.entered e h = elim (Bool-cases s.ctx_done) [
  | inl over ↦ inr (_, refuses {error = "context canceled"} e over, ground arith)
  | inr going ↦ inr (_, starts e going, ground arith)
]
caller_progress s Caller.running e h = inr (_, runs {result = none} e, ground arith)
caller_progress s (Caller.closing result) e h = inr (_, clears e, ground arith)
caller_progress s (Caller.cleared result) e h = inr (_, returns e, ground arith)
caller_progress s (Caller.returned result) e h = watcher_progress s s.watcher e refl h

-- Neither RunInitialized nor its goroutine is ever stuck, so that none of them is left behind: as long
-- as there are calls left, some step of them is possible, given that `run` comes back.
pub IsReached-progress :
    {s : State}
    → IsReached s
    → (calls_left s ≡ 0) ⊎ ((s' : State) × Step s s' × (calls_left s' < calls_left s))
IsReached-progress {s} r = caller_progress s s.caller refl (reached-IsWaited r)
