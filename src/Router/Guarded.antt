-- ===== src/Router/Guarded.antt =====
-- Which requests may change the state.
use helius.Common.{ℕ, String, List, ◌==◌, if◌then◌else◌, string_eq, Bool, ◌||◌}
use helius.Metrics.{Event}
use helius.Proxy.{Libraries, AppState, Incoming, Turn, handle as proxy_handle}
use helius.Router.{
  Handler, health, prometheus, stats, stats_history, handle, Dispatch, IsDocumented, IsLimited,
  Extract, Page, Readings, serve,
}

-- The paths of the management endpoints.
abbrev pub is_reserved : String → Bool
is_reserved path =
    ("/health" == path) || ("/metrics" == path) || ("/stats" == path) || ("/stats/history" == path)

reserved_route : String → Handler
reserved_route path =
    if "/health" == path
    then health
    else if "/metrics" == path
    then prometheus
    else if "/stats" == path
    then stats
    else stats_history

module _ {Limiter Url : Type 0} (lib : Libraries Limiter Url) (turns : ℕ → Turn Url)
    (now : Readings) (extract : Extract) (req : Incoming) (state : AppState Limiter Url) where
  module _ (dispatch : Dispatch) (doc : IsDocumented dispatch) (limited : IsLimited extract) where
    abbrev served : Page × AppState Limiter Url × List Event
    served = serve lib turns now extract req dispatch state
