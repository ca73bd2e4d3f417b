-- ===== src/Runtime/Laws/Settles.antt =====
-- How RunInitialized of internal/runtime/runtime.go and its goroutine end.
use nexus_relay.Common.{
  ℕ, suc, ◌+◌, ◌≤◌, ◌≡◌, ◌⊎◌, inl, inr, refl, ◌||◌, String, Bool, true, false, Option, none, arith,
  Bool-cases, if◌then◌else◌,
}
use nexus_relay.Runtime.{
  Caller, Watcher, State, Step, ends, refuses, starts, runs, clears, returns, watcher_clears,
  watcher_cancels, watcher_ends, initial, IsReached, begins, steps,
}
use nexus_relay.Runtime.Laws.{
  is_idle, calls_left, IsWaited, reached-IsWaited, IsSafe, reached-IsSafe,
}

-- a step of the function or of its goroutine, and not the end of the caller's context
abbrev pub is_call : {s s' : State} → Step s s' → Bool
is_call ends = false
is_call _ = true

-- The states that are reached by so many steps of the function and its goroutine.
pub data Calls : ℕ → State → Type 0 where
  enters : (is_ready ctx_done : Bool) → Calls 0 (initial is_ready ctx_done)
  calls :
      {n : ℕ} {s s' : State}
      → Calls n s
      → (t : Step s s') → Calls (if is_call t then suc n else n) s'

Calls-IsReached : {n : ℕ} {s : State} → Calls n s → IsReached s
Calls-IsReached (enters r c) = begins r c
Calls-IsReached (calls c t) = steps (Calls-IsReached c) t

Step-count :
    (n : ℕ) (s s' : State) (t : Step s s')
    → n + calls_left s ≤ 6
    → IsWaited s
    → (if is_call t then suc n else n) + calls_left s' ≤ 6
unfolding calls_left
Step-count n s s' ends m h = ground arith
Step-count n s s' (refuses c d) m h = ground arith
Step-count n s s' (starts c d) m h = ground arith
Step-count n s s' (runs c) m h = ground arith
Step-count n s s' (clears c) m h = ground arith
Step-count n s s' (returns c) m h = ground arith
Step-count n s s' (watcher_clears w d) m h = ground arith
Step-count n s s' (watcher_cancels w) m h = ground arith
Step-count n s s' (watcher_ends w f) m h = ground arith

count : {n : ℕ} {s : State} → Calls n s → n + calls_left s ≤ 6
unfolding calls_left
count (enters r c) = omega arith
count (calls {n} {s} {s'} c t) =
    Step-count n s s' t (count c) (reached-IsWaited (Calls-IsReached c))

abbrev is_returned : Caller → Bool
is_returned (Caller.returned _) = true
is_returned _ = false

abbrev IsCancelled : State → Type 0
IsCancelled s = is_returned s.caller ≡ true → (s.serve_cancelled || is_idle s.watcher) ≡ true

Step-IsCancelled : (s s' : State) → Step s s' → IsWaited s → IsCancelled s → IsCancelled s'
Step-IsCancelled s s' ends h k = ground arith
Step-IsCancelled s s' (refuses c d) h k = ground arith
Step-IsCancelled s s' (starts c d) h k = ground arith
Step-IsCancelled s s' (runs c) h k = ground arith
Step-IsCancelled s s' (clears c) h k = ground arith
Step-IsCancelled s s' (returns c) h k = ground arith
Step-IsCancelled s s' (watcher_clears w d) h k = ground arith
Step-IsCancelled s s' (watcher_cancels w) h k = ground arith
Step-IsCancelled s s' (watcher_ends w f) h k = ground arith

reached-IsCancelled : {s : State} → IsReached s → IsCancelled s
reached-IsCancelled (begins r c) = ground arith
reached-IsCancelled (steps {s} {s'} r t) =
    Step-IsCancelled s s' t (reached-IsWaited r) (reached-IsCancelled r)

-- The function has returned and its goroutine is over, or never started; the process is not ready, and
-- a server that was started has been told to stop.
pub record IsSettled (s : State) : Type 0 where
  pub result : Option String
  pub over : s.caller ≡ Caller.returned result
  pub goroutine : (s.watcher ≡ Watcher.idle) ⊎ (s.watcher ≡ Watcher.done)
  pub not_ready : s.is_ready ≡ false
  pub told : s.watcher ≡ Watcher.done → s.serve_cancelled ≡ true

abbrev pub HasCall : State → Type 0
HasCall s = (s' : State) × ((t : Step s s') × (is_call t ≡ true))

settled :
    (s : State) (w : Watcher) {result : Option String}
    → s.caller ≡ Caller.returned result
    → s.watcher ≡ w
    → IsWaited s
    → IsSafe s
    → IsCancelled s
    → IsSettled s ⊎ HasCall s
settled s Watcher.idle e f h k c = inl (record {
  result = _;
  over = e;
  goroutine = inl f;
  not_ready = ground arith;
  told = λ g. ground arith;
})
settled s Watcher.done e f h k c = inl (record {
  result = _;
  over = e;
  goroutine = inr f;
  not_ready = ground arith;
  told = λ g. ground arith;
})
settled s Watcher.clearing e f h k c = inr (_, (watcher_cancels f, refl))
settled s Watcher.selecting e f h k c = inr (_, (watcher_ends f (ground arith), refl))

goes_on :
    (s : State) (c : Caller)
    → s.caller ≡ c
    → IsWaited s
    → IsSafe s
    → IsCancelled s
    → IsSettled s ⊎ HasCall s
goes_on s Caller.entered e h k l = elim (Bool-cases s.ctx_done) [
  | inl over ↦ inr (_, (refuses {error = "context canceled"} e over, refl))
  | inr going ↦ inr (_, (starts e going, refl))
]
goes_on s Caller.running e h k l = inr (_, (runs {result = none} e, refl))
goes_on s (Caller.closing result) e h k l = inr (_, (clears e, refl))
goes_on s (Caller.cleared result) e h k l = inr (_, (returns e, refl))
goes_on s (Caller.returned result) e h k l = settled s s.watcher e refl h k l

-- RunInitialized and its goroutine take at most 6 steps, under every scheduling, and as long as they
-- can take one more they have not settled: where none is left, the function has returned, the goroutine
-- is over or was never started, the process is not ready and a server that was started is told to stop.
pub Calls-IsSettled : {n : ℕ} {s : State} → Calls n s → (n ≤ 6) × (IsSettled s ⊎ HasCall s)
unfolding calls_left
Calls-IsSettled {n} {s} c =
    let r = Calls-IsReached c in
    let most = count c in
    (
      omega arith,
      goes_on s s.caller refl (reached-IsWaited r) (reached-IsSafe r) (reached-IsCancelled r),
    )
