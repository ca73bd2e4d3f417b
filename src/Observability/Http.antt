-- ===== src/Observability/Http.antt =====
-- internal/observability/http.go: the labels of a request, and the writer that keeps its status.
pub mod Labels
pub mod Writer
use nexus_relay.Common.{
  ℕ, ◌/◌, String, Bool, true, false, not, ◌&&◌, ◌||◌, List, [], ◌∷◌, ltb, leb, nat_eq,
  if◌then◌else◌, contains, ◌==◌, Option, none, some,
}
use nexus_relay.Config.Number.{itoa}
use Prim.Native.String.{◌++◌}

unfoldable pub bounded_route : String → String → String
bounded_route method path =
    if method == "GET" && path == "/health/live"
    then "health.live"
    else if method == "GET" && path == "/health/ready"
    then "health.ready"
    else if method == "GET" && path == "/metrics"
    then "metrics"
    else "unknown"

abbrev pub methods : List String
methods = "GET" ∷ "HEAD" ∷ "POST" ∷ "PUT" ∷ "PATCH" ∷ "DELETE" ∷ "OPTIONS" ∷ []

unfoldable pub bounded_method : String → String
bounded_method method = if contains method methods then method else "OTHER"

-- a status is not negative here: net/http refuses codes below 100
unfoldable pub bounded_status : ℕ → String
bounded_status status =
    if ltb status 100 || ltb 599 status then "unknown" else itoa (status / 100) ++ "xx"

-- What a client gets of a response, and net/http's WriteHeader behind statusWriter: an informational
-- status, but for 101, goes out and the response still waits for its own.
pub record Sent : Type 0 where
  pub informational : List ℕ
  pub final : Option ℕ

abbrev pub is_informational : ℕ → Bool
is_informational status = leb 100 status && leb status 199 && not (nat_eq status 101)

abbrev send_new : ℕ → Sent → Option ℕ → Sent
send_new status s (some _) = s
send_new status s none =
    if is_informational status
    then record s { informational = status ∷ s.informational }
    else record s { final = some status }

unfoldable pub send : ℕ → Sent → Sent
send status s = send_new status s s.final

-- the status of the response when its handler has returned
abbrev pub received : Sent → ℕ
received s = elim s.final [ none ↦ 200 | some status ↦ status ]

-- statusWriter, and the response of the writer below it
pub record StatusWriter : Type 0 where
  pub status : ℕ
  pub wrote_header : Bool
  pub sent : Sent

abbrev pub new_writer : StatusWriter
new_writer = record {
  status = 200;
  wrote_header = false;
  sent = record { informational = []; final = none };
}

unfoldable pub write_header : ℕ → StatusWriter → StatusWriter
write_header status w =
    if w.wrote_header
    then w
    else record { status = status; wrote_header = true; sent = send status w.sent }

-- a body, and a flush, of net/http's writer: with status 200 if there is none yet
abbrev pub passed_on : StatusWriter → StatusWriter
passed_on w = record w { sent = send 200 w.sent }

-- Write, less the body that it passes on
unfoldable pub write : StatusWriter → StatusWriter
unfolding write_header
write w = passed_on (if w.wrote_header then w else write_header 200 w)

-- Unwrap: what a ResponseController does goes to the writer below
unfoldable pub unwrap : (Sent → Sent) → StatusWriter → StatusWriter
unwrap act w = record w { sent = act w.sent }

-- what a handler calls: WriteHeader, Write, and Flush of a ResponseController
pub data Call : Type 0 where
  header : ℕ → Call
  body flush : Call

unfoldable pub serve : List Call → StatusWriter → StatusWriter
unfolding write write_header unwrap send
serve [] w = w
serve (header status ∷ calls) w = serve calls (write_header status w)
serve (body ∷ calls) w = serve calls (write w)
serve (flush ∷ calls) w = serve calls (unwrap (send 200) w)
