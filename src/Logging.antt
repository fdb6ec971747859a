-- ===== src/Logging.antt =====
-- internal/logging/logging.go: the choice of the handler. What the handlers of log/slog write is not
-- modelled.
use route_sync.Base.{String, str_eq, if◌then◌else◌}

-- slog.NewJSONHandler and slog.NewTextHandler on standard error, from the level of Info on
pub data Handler : Type 0 where
  json_handler text_handler : Handler

-- New
unfoldable pub new : String → Handler
new format = if str_eq format "json" then json_handler else text_handler
