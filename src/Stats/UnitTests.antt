-- ===== src/Stats/UnitTests.antt =====
-- The unit tests of src/stats.rs, as functions into Bool, for the keys' token buckets as an argument; the buckets are
-- not looked at.
use helius.Common.{
  ℕ, suc, zero, String, Bool, true, false, ◌&&◌, ◌+◌, ◌==◌, nat_eq, Option, none, some, [], ◌∷◌,
  ◌≡◌, refl, length, get_elem?, modify,
}
use helius.Config.{UpstreamConfig, default_rps}
use helius.Ratelimit.{Governor}
use helius.Upstream.{
  Upstream, add_credits, daily_used, start_new_day, from_config as upstream_from_config,
}
use helius.Pool.{Pool, from_config}
use helius.Stats.Record.{DailyRecord, capture_day, total_of}
use helius.Stats.Roll.{Stats, new_stats, roll_day_if_changed, push_daily}
use helius.Common.{sum_u64}

unfoldable pub cfg : String → UpstreamConfig
cfg name = record { name = name; api_key = "k"; credit_cap = 1_000_000; enabled = true }

abbrev is_day : ℕ → Option DailyRecord → Bool
is_day day (some r) = r.day == day
is_day day none = false

abbrev is_total : ℕ → Option DailyRecord → Bool
is_total total (some r) = r.total_credits == total
is_total total none = false

module _ {Limiter : Type 0} (g : Governor Limiter) where
  unfoldable pub pool : Pool Limiter
  pool = from_config g (cfg "a" ∷ cfg "b" ∷ []) default_rps

  -- `pool.upstreams[i].add_credits(cost)`
  abbrev charged : (i cost : ℕ) → Pool Limiter → Pool Limiter
  charged i cost p = record p { upstreams = modify i (λ u. (add_credits cost u).0) p.upstreams }

  abbrev is_key : (Upstream Limiter → ℕ) → ℕ → Option (Upstream Limiter) → Bool
  is_key counter n (some u) = counter u == n
  is_key counter n none = false

  unfoldable pub day_rollover_records_and_rebaselines : Bool
  day_rollover_records_and_rebaselines =
      let p = charged 1 12 (charged 0 30 pool) in
      let stats : Stats = record new_stats { current_day = 20260101 } in
      let (stats', p') = roll_day_if_changed p 20260102 90 stats in
      let h = stats'.daily_history in
      let later = charged 0 5 p' in
      (length h == 1)
      && is_day 20260101 (get_elem? h 0)
      && is_total 42 (get_elem? h 0)
      && is_key daily_used 0 (get_elem? p'.upstreams 0)
      && is_key daily_used 5 (get_elem? later.upstreams 0)
      && is_key (λ u. u.credits_total) 35 (get_elem? later.upstreams 0)

  -- `for d in from..from + n` of the next test.
  abbrev push_days : (n from : ℕ) → Stats → Stats
  push_days zero from s = s
  push_days (suc n) from s =
      push_days n (from + 1) (push_daily (capture_day pool (20260100 + from)) 3 s)

  unfoldable pub daily_history_trims_to_retention : Bool
  daily_history_trims_to_retention =
      let h = (push_days 5 1 new_stats).daily_history in
      (length h == 3) && is_day 20260103 (get_elem? h 0) && is_day 20260105 (get_elem? h 2)

day_rollover_passes :
    {Limiter : Type 0} (g : Governor Limiter) → day_rollover_records_and_rebaselines g ≡ true
unfolding day_rollover_records_and_rebaselines pool cfg from_config upstream_from_config add_credits
    roll_day_if_changed push_daily capture_day start_new_day daily_used sum_u64 total_of
day_rollover_passes g = refl

daily_history_trims_passes :
    {Limiter : Type 0} (g : Governor Limiter) → daily_history_trims_to_retention g ≡ true
unfolding daily_history_trims_to_retention pool cfg push_daily capture_day
daily_history_trims_passes g = refl
