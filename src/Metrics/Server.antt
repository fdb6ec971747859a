-- ===== src/Metrics/Server.antt =====
-- Serve of internal/metrics/metrics.go: the server that it sets up. That the server listens until the
-- context is done is net/http, and not modelled.
use route_sync.Base.{ℕ, String, List, [], ◌∷◌}
use route_sync.Base.Int.{ℤ, pos}
use route_sync.Base.Maps.{GoMap}
use route_sync.Metrics.{Registry, handler}

-- An http.Server: its multiplexer is the handlers of its patterns.
pub record Server : Type 0 where
  pub addr : String
  pub mux : List (String × (Registry → String))
  pub read_header_timeout : ℤ

-- Serve, for the orders in which Go ranges over the registry's maps
unfoldable pub serve : (GoMap ℕ → GoMap ℕ) → (GoMap ℤ → GoMap ℤ) → String → Server
serve counters gauges addr = record {
  addr = addr;
  mux = ("/metrics", handler counters gauges) ∷ [];
  read_header_timeout = pos 5_000_000_000;
}
