-- ===== src/Observability/Http/Writer.antt =====
-- The status that the middleware of internal/observability/http.go records.
use nexus_relay.Common.{ℕ, ◌≡◌, refl, Bool, true, false, not, some, List, [], ◌∷◌, arith}
use nexus_relay.Observability.Http.{
  StatusWriter, write_header, write, passed_on, unwrap, Call, header, body, flush, serve, send,
  received, is_informational,
}

-- The statuses that the calls give to statusWriter, up to the first: an explicit one, or 200 for a body.
abbrev pub first_status : List Call → List ℕ
first_status [] = []
first_status (header status ∷ calls) = status ∷ []
first_status (body ∷ calls) = 200 ∷ []
first_status (flush ∷ calls) = first_status calls

abbrev pub status_or_ok : List ℕ → ℕ
status_or_ok [] = 200
status_or_ok (status ∷ _) = status

-- The first call is neither a flush nor an informational status.
abbrev pub is_plain : List Call → Bool
is_plain [] = true
is_plain (header status ∷ calls) = not (is_informational status)
is_plain (body ∷ calls) = true
is_plain (flush ∷ calls) = false

serve_wrote :
    (calls : List Call) (w : StatusWriter)
    → w.wrote_header ≡ true
    → (serve calls w).status ≡ w.status
unfolding serve write write_header unwrap
serve_wrote [] w h = refl
serve_wrote (header status ∷ calls) w h = ground (arith, serve_wrote calls w h)
serve_wrote (body ∷ calls) w h =
    ground (arith, serve_wrote calls (record w { sent = send 200 w.sent }) h)
serve_wrote (flush ∷ calls) w h = serve_wrote calls (record w { sent = send 200 w.sent }) h

-- What is recorded, whatever the calls are.
pub serve_status :
    (calls : List Call) (w : StatusWriter)
    → w.wrote_header ≡ false
    → w.status ≡ 200
    → (serve calls w).status ≡ status_or_ok (first_status calls)
unfolding serve write write_header unwrap
serve_status [] w h e = e
serve_status (header status ∷ calls) w h e = rw h (
    serve_wrote calls (record { status = status; wrote_header = true; sent = send status w.sent })
      refl)
serve_status (body ∷ calls) w h e = rw h (
    serve_wrote calls
      (passed_on (record { status = 200; wrote_header = true; sent = send 200 w.sent })) refl)
serve_status (flush ∷ calls) w h e = serve_status calls (record w { sent = send 200 w.sent }) h e

abbrev final_with : ℕ → StatusWriter
final_with status = record {
  status = status;
  wrote_header = true;
  sent = record { informational = []; final = some status };
}

-- the response and the record behind a first call that gives this final status
record IsFinal (status : ℕ) (w : StatusWriter) : Type 0 where
  alone : w.sent.informational ≡ []
  gets : received w.sent ≡ status
  records : w.status ≡ status
