-- ===== src/Persistence/Restore.antt =====
-- `apply_snapshot` and `restore_into` of src/persistence.rs, and `replay_to_prometheus` of src/stats.rs.
use helius.Common.{
  ℕ, String, not, Option, none, some, List, [], ◌∷◌, ◌++◌, map, ◌==◌, nat_eq, string_eq, ltb,
  if◌then◌else◌, find,
}
use helius.Config.{SnapshotErrorPolicy, zero_usage, cap_usage, PersistenceConfig}
use helius.Metrics.{
  Event, counter, gauge_set, credits_consumed_total, requests_total, rate_limit_hits_total,
  credits_remaining, rpc_method_total, all_exhausted_total,
}
use helius.Upstream.{
  Upstream, restore_lifetime, restore_day_start, restore_monthly, start_new_day, remaining_credits,
}
use helius.Pool.{Pool}
use helius.Stats.{Stats, UsagePoint, MonthlyRecord, total_of, capture_day, push_daily}
use helius.Persistence.Snapshot.{
  UpstreamSnap, Snapshot, ReadResult, Loaded, snapshot, absent, unreadable, load,
}

-- `snap.upstreams.iter().find(|s| s.name == up.name)`
unfoldable pub find_snap : List UpstreamSnap → String → Option UpstreamSnap
find_snap snaps name = find (λ s. s.name == name) snaps

-- `.map(|s| s.credits_used).unwrap_or(0)` of that.
unfoldable pub used_in : List UpstreamSnap → String → ℕ
used_in snaps name = elim (find_snap snaps name) [ some s ↦ s.credits_used | none ↦ 0 ]

unfoldable pub closing_record : Snapshot → MonthlyRecord
closing_record snap =
    let points : List UsagePoint =
      map (λ s. record { name = s.name; credits_used = s.credits_used }) snap.upstreams in
    record { month = snap.epoch_yyyymm; total_credits = total_of points; upstreams = points }

unfoldable pub increment_nonzero : (metric upstream : String) → ℕ → List Event
increment_nonzero metric upstream value =
    if ltb 0 value then counter metric (upstream ∷ []) value ∷ [] else []

module _ {Limiter : Type 0} where
  -- Lifetime counters and the day's baseline, for a key that the snapshot names.
  unfoldable pub restore_key : List UpstreamSnap → Upstream Limiter → Upstream Limiter
  restore_key snaps up = elim (find_snap snaps up.name) [
    | some s ↦ restore_day_start s.day_start_total (
        restore_lifetime s.credits_total s.requests_ok s.requests_rate_limited s.requests_error
          s.rate_limit_hits up)
    | none ↦ up
  ]

  -- The block from `if snap.epoch_yyyymm == cur_month` on.
  unfoldable pub apply_monthly :
      Snapshot → (cur_month : ℕ) → List (Upstream Limiter) × Stats → List (Upstream Limiter) × Stats
  apply_monthly snap cur_month (ups, stats) =
      if snap.epoch_yyyymm == cur_month
      then (map (λ up. restore_monthly cur_month (used_in snap.upstreams up.name) up) ups, stats)
      else (
        map (restore_monthly cur_month 0) ups,
        (if not (snap.epoch_yyyymm == 0)
            then record stats { history = stats.history ++ closing_record snap ∷ [] }
            else stats),
      )

  -- The block from `if snap.current_day != cur_day` on.
  unfoldable pub apply_daily :
      Snapshot
      → (cur_day retention cursor : ℕ) → List (Upstream Limiter) × Stats
      → List (Upstream Limiter) × Stats
  apply_daily snap cur_day retention cursor (ups, stats) =
      if not (snap.current_day == cur_day)
      then (
        map start_new_day ups,
        (if not (snap.current_day == 0)
            then push_daily
                (capture_day (record { upstreams = ups; cursor = cursor }) snap.current_day)
                retention stats
            else stats),
      )
      else (ups, stats)

  unfoldable pub apply_snapshot :
      Pool Limiter → Stats → Snapshot → (cur_month cur_day retention : ℕ) → Pool Limiter × Stats
  apply_snapshot pool stats snap cur_month cur_day retention =
      let ups = map (restore_key snap.upstreams) pool.upstreams in
      let restored = record stats {
        all_exhausted = snap.all_exhausted;
        methods = snap.methods;
        history = snap.history;
        daily_history = snap.daily_history;
      } in
      let (ups', stats') =
        apply_daily snap cur_day retention pool.cursor
          (apply_monthly snap cur_month (ups, restored)) in
      (record pool { upstreams = ups' }, stats')

  unfoldable pub replay_key : Upstream Limiter → List Event
  replay_key up =
      increment_nonzero credits_consumed_total up.name up.credits_total
      ++ counter requests_total (up.name ∷ "ok" ∷ []) up.requests_ok
        ∷ counter requests_total (up.name ∷ "rate_limited" ∷ []) up.requests_rate_limited
        ∷ counter requests_total (up.name ∷ "error" ∷ []) up.requests_error
        ∷ counter rate_limit_hits_total (up.name ∷ []) up.rate_limit_hits
        ∷ gauge_set credits_remaining up.name (remaining_credits up)
        ∷ []

  unfoldable pub replay_keys : List (Upstream Limiter) → List Event
  replay_keys [] = []
  replay_keys (up ∷ ups) = replay_key up ++ replay_keys ups

  unfoldable pub replay_to_prometheus : Pool Limiter → Stats → List Event
  replay_to_prometheus pool stats =
      replay_keys pool.upstreams
      ++ (map (λ b. counter rpc_method_total (b.0 ∷ []) b.1) stats.methods
          ++ (if ltb 0 stats.all_exhausted
              then counter all_exhausted_total [] stats.all_exhausted ∷ []
              else []))

  -- The keys after `Ok(None)` and `Err`.
  unfoldable pub start_empty : (cur_month : ℕ) → Upstream Limiter → Upstream Limiter
  start_empty cur_month up = start_new_day (restore_monthly cur_month 0 up)

  unfoldable pub start_by_policy :
      SnapshotErrorPolicy → (cur_month : ℕ) → Upstream Limiter → Upstream Limiter
  start_by_policy zero_usage cur_month up = start_new_day (restore_monthly cur_month 0 up)
  start_by_policy cap_usage cur_month up =
      start_new_day (restore_monthly cur_month up.credit_cap up)

  unfoldable pub restore_loaded :
      Pool Limiter
      → Stats
      → PersistenceConfig
      → Loaded
      → (cur_month cur_day : ℕ) → Pool Limiter × Stats
  restore_loaded pool stats cfg (snapshot snap) cur_month cur_day =
      apply_snapshot pool stats snap cur_month cur_day cfg.daily_retention_days
  restore_loaded pool stats cfg absent cur_month cur_day =
      (record pool { upstreams = map (start_empty cur_month) pool.upstreams }, stats)
  restore_loaded pool stats cfg unreadable cur_month cur_day = (
    record pool {
      upstreams = map (start_by_policy cfg.on_snapshot_error cur_month) pool.upstreams;
    },
    stats,
  )

  unfoldable pub restore_into :
      (List ℕ → Option Snapshot)
      → ReadResult
      → (cur_month cur_day : ℕ) → Pool Limiter
      → Stats
      → PersistenceConfig
      → Pool Limiter × Stats × List Event
  restore_into from_slice read cur_month cur_day pool stats cfg =
      let (pool', restored) =
        restore_loaded pool stats cfg (load from_slice read) cur_month cur_day in
      let stats' = record restored { current_month = cur_month; current_day = cur_day } in
      (pool', stats', replay_to_prometheus pool' stats')
