-- ===== src/Dependency/Probes.antt =====
-- internal/dependency/readiness.go: runProbes. Each probe runs in a goroutine that writes its own
-- element of a shared array; the goroutines finish in any order, which the argument `order` gives.
pub mod Order
use nexus_relay.Common.{
  ℕ, zero, suc, Bool, true, false, ◌&&◌, ◌||◌, List, [], ◌∷◌, String, nat_eq, if◌then◌else◌, length,
}

-- a probe: its name, whether it has a Ping and whether it has an Observe
pub record Probe : Type 0 where
  pub name : String
  pub has_ping : Bool
  pub is_observed : Bool

unfoldable pub set_at : ℕ → Bool → List Bool → List Bool
set_at i b [] = []
set_at zero b (x ∷ xs) = b ∷ xs
set_at (suc i) b (x ∷ xs) = x ∷ set_at i b xs

unfoldable pub make_flags : ℕ → List Bool
make_flags zero = []
make_flags (suc n) = false ∷ make_flags n

-- the writes `failed[index] = err != nil` in the order of completion
unfoldable pub complete : List ℕ → (ℕ → Bool) → List Bool → List Bool
unfolding set_at
complete [] fails failed = failed
complete (index ∷ order) fails failed = complete order fails (set_at index (fails index) failed)

-- the loop that appends the names of the failed probes
unfoldable pub failed_names : List Probe → List Bool → List String
failed_names (probe ∷ probes) (is_failed ∷ failed) =
    let names = failed_names probes failed in if is_failed then probe.name ∷ names else names
failed_names probes failed = []

unfoldable pub run_probes : List ℕ → (ℕ → Bool) → List Probe → List String
unfolding complete failed_names make_flags
run_probes order fails probes =
    failed_names probes (complete order fails (make_flags (length probes)))

abbrev pub mentions : ℕ → List ℕ → Bool
mentions i [] = false
mentions i (j ∷ js) = nat_eq i j || mentions i js

-- `wait.Wait()` returns when each of the first `n` goroutines has finished.
abbrev pub all_finished : ℕ → List ℕ → Bool
all_finished zero order = true
all_finished (suc n) order = mentions n order && all_finished n order
