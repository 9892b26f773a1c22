-- ===== src/Persistence/Policy.antt =====
-- What `restore_into` of src/persistence.rs starts from without a snapshot.
use helius.Common.{
  ℕ, false, Option, List, [], ◌∷◌, map, ◌≡◌, refl, sym, subst, arith, ◌+◌, ◌<◌, nat_eq, string_eq,
  All, u64_mod,
}
use helius.Config.{PersistenceConfig, SnapshotErrorPolicy, zero_usage, cap_usage}
use helius.Upstream.{Upstream, has_quota_for, daily_used, restore_monthly, start_new_day}
use helius.Pool.{Pool}
use helius.Pool.Choice.{AreCapped}
use helius.Stats.{Stats}
use helius.Persistence.Snapshot.{Snapshot, ReadResult, unreadable, load}
use helius.Persistence.Restore.{start_by_policy, restore_loaded, restore_into}

-- A key that begins its month with nothing used, or with nothing left for any request that costs credits;
-- in both cases its day begins too.
abbrev pub IsStarted :
    {Limiter : Type 0} → SnapshotErrorPolicy → (cur_month : ℕ) → Upstream Limiter → Type 0
IsStarted zero_usage cur_month up =
    (up.credits_used ≡ 0) × (daily_used up ≡ 0) × (up.epoch_yyyymm ≡ cur_month)
IsStarted cap_usage cur_month up =
    ((cost : ℕ) → 0 < cost → has_quota_for cost up ≡ false)
    × (daily_used up ≡ 0)
    × (up.epoch_yyyymm ≡ cur_month)

module _ {Limiter : Type 0} where
  start_by_policy-IsStarted :
      (policy : SnapshotErrorPolicy) (cur_month : ℕ) (up : Upstream Limiter)
      → up.credit_cap + 1 < u64_mod
      → IsStarted policy cur_month (start_by_policy policy cur_month up)
  unfolding start_by_policy start_new_day restore_monthly daily_used has_quota_for
  start_by_policy-IsStarted zero_usage cur_month up capped = (refl, omega arith, refl)
  start_by_policy-IsStarted cap_usage cur_month up capped =
      (λ cost above. ground arith, omega arith, refl)

  map-IsStarted :
      (policy : SnapshotErrorPolicy) (cur_month : ℕ) (ups : List (Upstream Limiter))
      → AreCapped ups
      → All (IsStarted policy cur_month) (map (start_by_policy policy cur_month) ups)
  map-IsStarted policy cur_month [] capped = tt
  map-IsStarted policy cur_month (up ∷ ups) capped = (
    start_by_policy-IsStarted policy cur_month up capped.0,
    map-IsStarted policy cur_month ups capped.1,
  )

-- After a boot whose snapshot cannot be read, every key is what the configured policy says: with nothing
-- used, or with no quota for any request that costs credits. Its day begins, its month is the current one,
-- and the statistics change only in the current month and day. The caps are below the largest u64.
pub restore_into-unreadable :
    {Limiter : Type 0} (pool : Pool Limiter) (s : Stats) (cfg : PersistenceConfig)
    (from_slice : List ℕ → Option Snapshot) (read : ReadResult) (cur_month cur_day : ℕ)
    → AreCapped pool.upstreams
    → load from_slice read ≡ unreadable
    → let (pool', s', _) = restore_into from_slice read cur_month cur_day pool s cfg in
      All (IsStarted cfg.on_snapshot_error cur_month) pool'.upstreams
      × (s' ≡ record s { current_month = cur_month; current_day = cur_day })
unfolding restore_into restore_loaded
restore_into-unreadable pool s cfg from_slice read cur_month cur_day capped failed =
    subst
      (λ l.
        let r = restore_loaded pool s cfg l cur_month cur_day in
        All (IsStarted cfg.on_snapshot_error cur_month) r.0.upstreams
        × (record r.1 { current_month = cur_month; current_day = cur_day }
            ≡ record s { current_month = cur_month; current_day = cur_day }))
      (sym failed) (map-IsStarted cfg.on_snapshot_error cur_month pool.upstreams capped, refl)
