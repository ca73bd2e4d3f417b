-- ===== src/Dependency/Probes/Order.antt =====
-- The failed probes do not depend on the order in which the goroutines finish.
use native.Mathlib.Nat.{add-zero}
use nexus_relay.Common.{
  ap, ◌∙◌, ℕ, zero, suc, ◌+◌, ◌<◌, ◌≡◌, refl, Bool, true, false, List, [], ◌∷◌, String, arith,
  nat_eq, if◌then◌else◌, length,
}
use nexus_relay.Dependency.Probes.{
  Probe, set_at, make_flags, complete, failed_names, run_probes, mentions, all_finished,
}

-- The names of the probes that fail, in their order, for probes numbered from `first`.
abbrev pub failing : (ℕ → Bool) → ℕ → List Probe → List String
failing fails first [] = []
failing fails first (probe ∷ probes) =
    let rest = failing fails (suc first) probes in if fails first then probe.name ∷ rest else rest

abbrev flag_at : List Bool → ℕ → Bool
flag_at [] i = false
flag_at (b ∷ bs) zero = b
flag_at (b ∷ bs) (suc i) = flag_at bs i

length-set_at : (i : ℕ) (b : Bool) (bs : List Bool) → length (set_at i b bs) ≡ length bs
unfolding set_at
length-set_at i b [] = refl
length-set_at zero b (x ∷ bs) = refl
length-set_at (suc i) b (x ∷ bs) = omega (arith, length-set_at i b bs)

length-make_flags : (n : ℕ) → length (make_flags n) ≡ n
unfolding make_flags
length-make_flags zero = refl
length-make_flags (suc n) = omega (arith, length-make_flags n)

flag_at-set_at :
    (i j : ℕ) (b : Bool) (bs : List Bool)
    → j < length bs
    → flag_at (set_at i b bs) j ≡ (if nat_eq j i then b else flag_at bs j)
unfolding set_at
flag_at-set_at i j b [] h = ground arith
flag_at-set_at zero zero b (x ∷ bs) h = refl
flag_at-set_at zero (suc j) b (x ∷ bs) h = ground arith
flag_at-set_at (suc i) zero b (x ∷ bs) h = ground arith
flag_at-set_at (suc i) (suc j) b (x ∷ bs) h = ground (arith, flag_at-set_at i j b bs)

length-complete :
    (order : List ℕ) (fails : ℕ → Bool) (bs : List Bool)
    → length (complete order fails bs) ≡ length bs
unfolding complete
length-complete [] fails bs = refl
length-complete (i ∷ order) fails bs =
    omega (arith, length-complete order fails (set_at i (fails i) bs), length-set_at i (fails i) bs)

flag_at-complete :
    (order : List ℕ) (fails : ℕ → Bool) (bs : List Bool) (j : ℕ)
    → j < length bs
    → flag_at (complete order fails bs) j ≡ (if mentions j order then fails j else flag_at bs j)
unfolding complete
flag_at-complete [] fails bs j h = refl
flag_at-complete (i ∷ order) fails bs j h = ground (
  arith,
  length-set_at i (fails i) bs,
  flag_at-set_at i j (fails i) bs,
  flag_at-complete order fails (set_at i (fails i) bs) j,
)

mentions_of_all_finished :
    (n j : ℕ) (order : List ℕ) → all_finished n order ≡ true → j < n → mentions j order ≡ true
mentions_of_all_finished zero j order h k = ground arith
mentions_of_all_finished (suc n) j order h k = ground (arith, mentions_of_all_finished n j order)

number_moves : (first j : ℕ) → first + suc j ≡ suc first + j
number_moves first j = omega arith

failed_names-failing :
    (fails : ℕ → Bool) (first : ℕ) (probes : List Probe) (bs : List Bool)
    → length bs ≡ length probes
    → ((j : ℕ) → j < length bs → flag_at bs j ≡ fails (first + j))
    → failed_names probes bs ≡ failing fails first probes
unfolding failed_names
failed_names-failing fails first [] [] h e = refl
failed_names-failing fails first [] (b ∷ bs) h e = ground arith
failed_names-failing fails first (p ∷ ps) [] h e = ground arith
failed_names-failing fails first (p ∷ ps) (b ∷ bs) h e =
    let here = e 0 (omega arith) ∙ ap fails (add-zero first) in
    let later =
      failed_names-failing fails (suc first) ps bs (omega arith)
        (λ j k. e (suc j) (omega arith) ∙ ap fails (number_moves first j)) in
    ground (arith, here, later)

-- Once each probe has finished, in whatever order, the result of a round is the names of those that
-- failed, in the order of the probes.
pub run_probes-failing :
    (order : List ℕ) (fails : ℕ → Bool) (probes : List Probe)
    → all_finished (length probes) order ≡ true
    → run_probes order fails probes ≡ failing fails 0 probes
unfolding run_probes
run_probes-failing order fails probes h =
    let n = length probes in
    let size = length-complete order fails (make_flags n) ∙ length-make_flags n in
    failed_names-failing fails 0 probes _ size (λ j k. ground (
      arith,
      size,
      length-make_flags n,
      flag_at-complete order fails (make_flags n) j,
      mentions_of_all_finished n j order,
    ))
