-- ===== src/Apps/HealthProbe.antt =====
-- apps/health-probe/main.go: the program that asks a service for its readiness. flag and the HTTP
-- client are parameters.
use nexus_relay.Common.{
  ℕ, ◌≡◌, ◌↔◌, String, Bool, true, false, not, Option, none, some, List, nat_eq, plain, setting,
  numbered, Result, ok, err, ◌>>=◌, ◌>>◌, fail_if, or_fail, arith, Bool-cases, inl, inr,
  if◌then◌else◌,
}
use nexus_relay.Config.Library.{ℤ, pos, negsuc}
use nexus_relay.HttpServer.{Health, readiness, write_health}

-- the flags, in nanoseconds; the default URL is that of the readiness endpoint
pub record Flags : Type 0 where
  pub url : String
  pub timeout : ℤ

abbrev pub default_probe_url : String
default_probe_url = "http://127.0.0.1:8080/health/ready"

-- the status of the response that came, and an error of closing its body
pub record Answer : Type 0 where
  pub status : ℕ
  pub close_error : Option String

pub record Network : Type 0 where
  -- FlagSet.Parse, with `default_probe_url` and 3 seconds for what is not given
  pub parse_flags : List String → Result Flags
  -- whether http.NewRequestWithContext takes a URL; Client.Do within a time
  pub is_valid_url : String → Bool
  pub answer : String → ℕ → Option Answer

abbrev positive : ℤ → Option ℕ
positive (pos n) = if nat_eq n 0 then none else some n
positive (negsuc n) = none

abbrev closed : Option String → Result (Unit {0})
closed none = ok tt
closed (some e) = err (setting "close health probe response:" e)

unfoldable pub run : Network → List String → Result (Unit {0})
run network arguments = do
  flags ← network.parse_flags arguments
  timeout ← or_fail (positive flags.timeout) (plain "timeout must be positive")
  fail_if (not (network.is_valid_url flags.url)) (plain "health probe URL is invalid")
  answer ← or_fail (network.answer flags.url timeout) (plain "health probe request failed")
  closed answer.close_error
  fail_if (not (nat_eq answer.status 200)) (numbered "health probe returned status" answer.status)

-- A probe with a valid URL and a positive timeout that gets the answer of a service's readiness
-- handler, and can close it, succeeds exactly if the service is ready.
pub run-readiness_iff :
    (network : Network) (arguments : List String) (flags : Flags) (n : ℕ) (h : Health)
    → network.parse_flags arguments ≡ ok flags
    → flags.timeout ≡ pos n
    → nat_eq n 0 ≡ false
    → network.is_valid_url flags.url ≡ true
    → network.answer flags.url n
      ≡ some (record { status = (readiness h).status; close_error = none })
    → (run network arguments ≡ ok tt) ↔ (h.ready ≡ true)
unfolding run fail_if or_fail readiness write_health
run-readiness_iff network arguments flags n h a b c d e = elim (Bool-cases h.ready) [
  | inl ready ↦ (λ _. ready, λ _. ground arith)
  | inr not_ready ↦ (λ r. ground arith, λ r. cc)
]
