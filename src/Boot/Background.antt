-- ===== src/Boot/Background.antt =====
-- The tasks that src/main.rs and src/keepalive.rs spawn, and `save_snapshot` of src/main.rs.
use helius.Common.{
  ℕ, String, Option, List, [], ◌∷◌, ◌++◌, ◌↔◌, ◌<◌, ◌==◌, nat_eq, max, arith, if◌then◌else◌, All,
  Any,
}
use helius.Config.{Config}
use helius.Persistence.Snapshot.{Snapshot, capture}
use helius.Persistence.{Effect, save}
use helius.Proxy.{AppState}

-- A task with the period of its `tokio::time::interval`.
pub data Background : Type 0 where
  snapshot_writer : (secs : ℕ) → Background
  rollover_ticker : (secs retention : ℕ) → Background
  pinger : (secs : ℕ) → Background

unfoldable pub spawn_snapshot_writer : Config → List Background
spawn_snapshot_writer config = snapshot_writer (max config.persistence.interval_secs 1) ∷ []

unfoldable pub spawn_month_reset_ticker : Config → List Background
spawn_month_reset_ticker config = rollover_ticker 60 config.persistence.daily_retention_days ∷ []

-- `keepalive::spawn`
unfoldable pub spawn : Config → List Background
spawn config =
    let secs = config.gateway.keepalive_secs in if secs == 0 then [] else pinger secs ∷ []

unfoldable pub spawned : Config → List Background
unfolding spawn spawn_snapshot_writer spawn_month_reset_ticker
spawned config = spawn_snapshot_writer config ++ spawn_month_reset_ticker config ++ spawn config

abbrev pub period : Background → ℕ
period (snapshot_writer secs) = secs
period (rollover_ticker secs retention) = secs
period (pinger secs) = secs

abbrev pub IsPinger : Background → Type 0
IsPinger (snapshot_writer secs) = ⊥
IsPinger (rollover_ticker secs retention) = ⊥
IsPinger (pinger secs) = 0 < secs

-- Every task that is spawned has a period above 0, which `tokio::time::interval` asks for, whatever the
-- configuration says; a pinger is among them exactly when `keepalive_secs` is not 0.
pub spawned-period :
    (config : Config)
    → All (λ b. 0 < period b) (spawned config)
      × (Any IsPinger (spawned config) ↔ (0 < config.gateway.keepalive_secs))
unfolding spawned spawn spawn_snapshot_writer spawn_month_reset_ticker
spawned-period config = ground arith

-- `path.parent()` and `path.with_extension("json.tmp")` of std.
pub record Paths : Type 0 where
  pub parent : String → Option String
  pub json_tmp : String → String

-- The calls of one save; whether they succeed is up to the disk, and a failure is only logged.
unfoldable pub save_snapshot :
    {Limiter Url : Type 0}
    → Paths
    → (Snapshot → Option (List ℕ))
    → AppState Limiter Url
    → (now_ms : ℕ) → List Effect
save_snapshot paths to_vec state now_ms =
    let path = state.config.persistence.path in
    save to_vec (paths.parent path) (paths.json_tmp path) path
      (capture state.pool state.stats now_ms)
