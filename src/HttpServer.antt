-- ===== src/HttpServer.antt =====
-- internal/httpserver: the health handlers and the life of the server. Listening, routing and the
-- server itself are net/http's and chi's.
pub mod Laws
pub mod Router
use nexus_relay.Common.{
  ℕ, String, Bool, true, false, Option, none, some, List, [], ◌∷◌, if◌then◌else◌, Error, plain,
  setting,
}

-- health.go
pub record Health : Type 0 where
  pub ready : Bool

abbrev pub new_health : Health
new_health = record { ready = false }

unfoldable pub set_ready : Bool → Health → Health
set_ready ready h = record { ready = ready }

-- the status, the two headers, and the value of "status" in the JSON of the body
pub record Response : Type 0 where
  pub status : ℕ
  pub cache_control : String
  pub content_type : String
  pub state : String

unfoldable pub write_health : ℕ → String → Response
write_health status state = record {
  status = status;
  cache_control = "no-store";
  content_type = "application/json";
  state = state;
}

unfoldable pub live : Health → Response
unfolding write_health
live h = write_health 200 "live"

unfoldable pub readiness : Health → Response
unfolding write_health
readiness h = if h.ready then write_health 200 "ready" else write_health 503 "not_ready"

-- server.go: New, with the times in nanoseconds
pub record Server : Type 0 where
  pub address : String
  pub read_header_timeout : ℕ
  pub shutdown_grace : ℕ

unfoldable pub new_server : String → ℕ → Server
new_server address shutdown_grace = record {
  address = address;
  read_header_timeout = 10_000_000_000;
  shutdown_grace = shutdown_grace;
}

-- what http.Server.Serve returns: ErrServerClosed or another error
pub data ServeResult : Type 0 where
  server_closed : ServeResult
  serve_failed : String → ServeResult

-- What happens first in Serve: the server's result, or the end of the context, whereupon Shutdown
-- returns nil or an error and the server's result follows.
pub data Course : Type 0 where
  serve_returns : ServeResult → Course
  context_ends : (shutdown : Option String) → (later : ServeResult) → Course

abbrev pub after_serve : ServeResult → Option Error
after_serve server_closed = none
after_serve (serve_failed e) = some (setting "serve operational HTTP:" e)

unfoldable pub serve : Course → Option Error
serve (serve_returns result) = after_serve result
serve (context_ends (some e) later) = some (setting "shut down operational HTTP:" e)
serve (context_ends none later) = after_serve later

-- Run: an error of net.Listen, or Serve
unfoldable pub run : Option String → Course → Option Error
unfolding serve
run (some e) course = some (setting "listen on operational HTTP address:" e)
run none course = serve course
