-- ===== src/Boot/Start.antt =====
-- `Cli` and the start of `main` in src/main.rs, and `AppState::new` of src/state.rs. A path is a text; what
-- the outside gives (files, environment, clock, the recorder, the client) are arguments.
use helius.Common.{ℕ, String, Bool, Option, none, some, List, if◌then◌else◌, not}
use helius.Config.{Config, ConfigError}
use helius.Config.Load.{Loading, loaded, not_extracted, invalid, load}
use helius.Ratelimit.{Governor}
use helius.Metrics.{Event}
use helius.Persistence.Snapshot.{Snapshot, ReadResult}
use helius.Persistence.{restore_into}
use helius.Proxy.{AppState, new_state}

pub record Cli : Type 0 where
  pub config : Option String
  pub state : Option String

abbrev pub or_else : Option String → Option String → Option String
or_else (some a) b = some a
or_else none b = b

abbrev pub unwrap_or : String → Option String → String
unwrap_or fallback (some a) = a
unwrap_or fallback none = fallback

-- The config path, for the value of NINEHELIUS_CONFIG.
unfoldable pub config_path : Cli → (env : Option String) → String
config_path cli env = unwrap_or "config.toml" (or_else cli.config env)

-- `if let Some(state) = cli.state`
unfoldable pub override_path : (state : Option String) → Config → Config
override_path none config = config
override_path (some path) config = record config {
  persistence = record config.persistence { path = path };
}

-- The `?` of `main` and of `AppState::new`.
pub data BootError : Type 0 where
  no_config : BootError
  bad_config : ConfigError → BootError
  no_recorder : BootError
  no_client : BootError
  bad_upstream_base : BootError

pub data Boot (A : Type 0) : Type 0 where
  booted : A → Boot A
  refused : BootError → Boot A

-- What `main` calls: the extraction of the configuration, `init_recorder`, the client's builder with its
-- timeout, `Url::parse`, the limiters, and the files with the decoder of snapshots.
pub record Outside (Limiter Url : Type 0) : Type 0 where
  pub extract : String → Option Config
  pub has_recorder : Bool
  pub builds_client : (timeout_ms : ℕ) → Bool
  pub parse : String → Option Url
  pub governor : Governor Limiter
  pub read : String → ReadResult
  pub from_slice : List ℕ → Option Snapshot

module _ {Limiter Url : Type 0} (out : Outside Limiter Url) where
  unfoldable pub parsed_state : Config → Option Url → Boot (AppState Limiter Url)
  parsed_state config none = refused bad_upstream_base
  parsed_state config (some base) = booted (new_state out.governor config base)

  -- `AppState::new`
  unfoldable pub new : Config → Boot (AppState Limiter Url)
  unfolding parsed_state
  new config =
      if not (out.builds_client config.gateway.request_timeout_ms)
      then refused no_client
      else parsed_state config (out.parse config.gateway.upstream_base)

  -- `persistence::restore_into(&state.pool, &state.stats, &state.config.persistence)`
  unfoldable pub after_restore :
      (cur_month cur_day : ℕ) → AppState Limiter Url → AppState Limiter Url × List Event
  after_restore cur_month cur_day app =
      let cfg = app.config.persistence in
      let (pool, stats, events) =
        restore_into out.from_slice (out.read cfg.path) cur_month cur_day app.pool app.stats cfg in
      (record app { pool = pool; stats = stats }, events)

  unfoldable pub restored :
      (cur_month cur_day : ℕ)
      → Boot (AppState Limiter Url)
      → Boot (AppState Limiter Url × List Event)
  unfolding after_restore
  restored cur_month cur_day (refused e) = refused e
  restored cur_month cur_day (booted app) = booted (after_restore cur_month cur_day app)

  -- `main` after the configuration is loaded, up to the first `spawn`.
  unfoldable pub start :
      (state : Option String)
      → (cur_month cur_day : ℕ) → Loading
      → Boot (AppState Limiter Url × List Event)
  unfolding new restored override_path
  start state cur_month cur_day not_extracted = refused no_config
  start state cur_month cur_day (invalid e) = refused (bad_config e)
  start state cur_month cur_day (loaded config) =
      if not out.has_recorder
      then refused no_recorder
      else restored cur_month cur_day (new (override_path state config))

  unfoldable pub boot :
      Cli
      → (env : Option String) → (cur_month cur_day : ℕ) → Boot (AppState Limiter Url × List Event)
  unfolding start config_path load
  boot cli env cur_month cur_day =
      start cli.state cur_month cur_day (load out.extract (config_path cli env))
