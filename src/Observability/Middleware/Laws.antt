-- ===== src/Observability/Middleware/Laws.antt =====
-- What of a request gets through to the log of internal/observability.
use nexus_relay.Common.{◌≡◌, refl, String, Option, none, some, List, ◌∷◌, map}
use nexus_relay.Config.Number.{itoa}
use nexus_relay.Observability.Http.{bounded_route, Call, new_writer, serve}
use nexus_relay.Observability.Http.Writer.{first_status, status_or_ok, serve_status}
use nexus_relay.Observability.Logging.{Slog, scalar, handle, redact_attribute}
use nexus_relay.Observability.Middleware.{Request, HttpMetrics, middleware, traced}

-- strings.ToLower leaves the keys of the middleware as they are, and Resolve a plain value.
pub record LeavesPlain (go : Slog) : Type 0 where
  pub route : go.to_lower "route" ≡ "route"
  pub status : go.to_lower "status" ≡ "status"
  pub duration : go.to_lower "duration_ms" ≡ "duration_ms"
  pub trace : go.to_lower "trace_id" ≡ "trace_id"
  pub plain : (text : String) → go.resolve (scalar text) ≡ scalar text

module _ (go : Slog) (l : LeavesPlain go) where
  plain_kept :
      (text : String)
      → (redact_attribute go (record { key = "route"; value = scalar text })
          ≡ record { key = "route"; value = scalar text })
        × (redact_attribute go (record { key = "status"; value = scalar text })
            ≡ record { key = "status"; value = scalar text })
        × (redact_attribute go (record { key = "duration_ms"; value = scalar text })
            ≡ record { key = "duration_ms"; value = scalar text })
        × (redact_attribute go (record { key = "trace_id"; value = scalar text })
            ≡ record { key = "trace_id"; value = scalar text })
  unfolding redact_attribute
  plain_kept text = (
    rw (l.route, l.plain text),
    rw (l.status, l.plain text),
    rw (l.duration, l.plain text),
    rw (l.trace, l.plain text),
  )

  traced_kept : (id : Option String) → map (redact_attribute go) (traced id) ≡ traced id
  traced_kept none = refl
  traced_kept (some id) = rw ((plain_kept id).3)

-- Whatever a request holds and its handler calls, its record goes through the redacting handler as it
-- is, if slog leaves plain values and these lower-case keys alone: it tells one of the bounded routes,
-- the status that the handler gives first (200 if it gives none), the time and the trace's id, if there is one, and
-- nothing else of the request.
pub handle-middleware :
    (go : Slog) (request : Request) (calls : List Call) (metrics : Option HttpMetrics)
    → LeavesPlain go
    → handle go (middleware request calls metrics).log ≡ record {
      message = "http.request.completed";
      attributes =
          record { key = "route"; value = scalar (bounded_route request.method request.path) }
          ∷ record { key = "status"; value = scalar (itoa (status_or_ok (first_status calls))) }
          ∷ record { key = "duration_ms"; value = scalar request.elapsed }
          ∷ traced request.trace_id;
    }
unfolding handle middleware
handle-middleware go request calls metrics l = rw (
  (plain_kept go l (bounded_route request.method request.path)).0,
  (plain_kept go l (itoa (serve calls new_writer).status)).1,
  (plain_kept go l request.elapsed).2,
  traced_kept go l request.trace_id,
  serve_status calls new_writer refl refl,
)
