-- ===== src/Router.antt =====
-- The routes of src/lib.rs, and what answers a request. Finding the route and extracting the body for the proxy
-- are axum's, parameters.
use helius.Common.{
  ℕ, String, Bool, Option, none, some, List, [], ◌∷◌, ◌++◌, ◌≡◌, true, false, ◌==◌, ◌||◌, ◌<◌, ◌≤◌,
  length, string_eq,
}
use helius.Common.Map.{Map, lookup}
use helius.Metrics.{Event}
use helius.Stats.{HistoryView}
use helius.Endpoints
use helius.Endpoints.{StatsView}
use helius.Proxy
use helius.Proxy.{Libraries, AppState, Incoming, Turn, Reply}
pub mod Guarded
mod Examples

pub data Handler : Type 0 where
  health : Handler
  prometheus : Handler
  stats : Handler
  stats_history : Handler
  handle : Handler

-- The routes, each for GET, and the fallback.
pub record Router : Type 0 where
  pub routes : Map String Handler
  pub fallback : Handler

unfoldable pub router : Router
router = record {
  routes =
      ("/health", health)
      ∷ ("/metrics", prometheus)
      ∷ ("/stats", stats)
      ∷ ("/stats/history", stats_history)
      ∷ [];
  fallback = handle;
}

-- axum's dispatch of a method and a path; `none` is its answer 405 Method Not Allowed.
abbrev pub Dispatch : Type 0
Dispatch = Router → (method path : String) → Option Handler

-- `get` also answers HEAD.
abbrev pub is_read : String → Bool
is_read method = (method == "GET") || (method == "HEAD")

-- What axum documents of routes without parameters: a path that no route has goes to the fallback, a route
-- answers the methods that it is for, and refuses the others.
pub record IsDocumented (dispatch : Dispatch) : Type 0 where
  pub unrouted :
      (r : Router) (method path : String)
      → lookup path r.routes ≡ none
      → dispatch r method path ≡ some r.fallback
  pub routed :
      (r : Router) (method path : String) (h : Handler)
      → lookup path r.routes ≡ some h
      → is_read method ≡ true
      → dispatch r method path ≡ some h
  pub not_allowed :
      (r : Router) (method path : String) (h : Handler)
      → lookup path r.routes ≡ some h
      → is_read method ≡ false
      → dispatch r method path ≡ none

-- What axum's `Bytes` makes of the request before the handler runs: the body, or its own response.
pub data Extracted : Type 0 where
  extracted : (body : List ℕ) → Extracted
  rejected : (status : ℕ) → Extracted

abbrev pub Extract : Type 0
Extract = Incoming → Extracted

-- axum's default limit of a body, which no layer of the router changes.
abbrev pub default_body_limit : ℕ
default_body_limit = 2_097_152

-- What axum documents of `Bytes`: what it gives is the body that was sent, within its default limit, and a body
-- above the limit is refused with 413. It also refuses a body that it cannot read to the end.
pub record IsLimited (extract : Extract) : Type 0 where
  pub whole :
      (req : Incoming) (body : List ℕ)
      → extract req ≡ extracted body
      → (body ≡ req.body) × (length body ≤ default_body_limit)
  pub large : (req : Incoming) → default_body_limit < length req.body → extract req ≡ rejected 413

-- The answers.
pub data Page : Type 0 where
  health_page : (status : ℕ) → String → Page
  metrics_page : ℕ × (String × String) × String → Page
  stats_page : StatsView → Page
  history_page : HistoryView → Page
  reply : Reply → Page
  body_rejected : (status : ℕ) → Page
  method_not_allowed : Page

-- What a management endpoint reads besides the state: the clock, and the text that the recorder renders.
pub record Readings : Type 0 where
  pub started_at : ℕ
  pub now_utc : ℕ
  pub now_ms : ℕ
  pub rendered : String

module _ {Limiter Url : Type 0} (lib : Libraries Limiter Url) (turns : ℕ → Turn Url)
    (now : Readings) (extract : Extract) (req : Incoming) where
  -- The fallback: the extraction of the body, and the handler.
  unfoldable pub with_body :
      Extracted → AppState Limiter Url → Page × AppState Limiter Url × List Event
  with_body (rejected status) state = (body_rejected status, state, [])
  with_body (extracted body) state =
      let (r, state', events) = Proxy.handle lib turns (record req { body = body }) state in
      (reply r, state', events)

  unfoldable pub answer :
      Option Handler → AppState Limiter Url → Page × AppState Limiter Url × List Event
  answer none state = (method_not_allowed, state, [])
  answer (some health) state =
      let (status, body) = Endpoints.health state.pool in (health_page status body, state, [])
  answer (some prometheus) state = (metrics_page (Endpoints.prometheus now.rendered), state, [])
  answer (some stats) state =
      (stats_page (Endpoints.stats now.started_at now.now_utc now.now_ms state), state, [])
  answer (some stats_history) state = (history_page (Endpoints.stats_history state), state, [])
  answer (some handle) state = with_body (extract req) state

  unfoldable pub serve : Dispatch → AppState Limiter Url → Page × AppState Limiter Url × List Event
  unfolding answer router
  serve dispatch state = answer (dispatch router req.method req.uri.path) state
