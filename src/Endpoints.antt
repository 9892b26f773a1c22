-- ===== src/Endpoints.antt =====
-- The management endpoints of src/metrics.rs. The bodies are the values that their JSON holds; the text of
-- `/metrics` is the recorder's own.
mod Examples
use helius.Common.{
  ℕ, String, Bool, true, false, List, [], ◌∷◌, ◌≡◌, ◌↔◌, ◌<◌, refl, ap, sym, ◌∙◌, arith,
  if◌then◌else◌, leb, ◌-◌, ◌/◌, Any, inl, inr, any, ◌&&◌, ltb, string_eq,
}
use helius.Common.Int.{ℤ, pos, sub_ℕ}
use helius.Upstream.{Upstream, UpstreamStat, remaining_credits}
use helius.Pool.{Pool, has_available_capacity, stats as pool_stats}
use helius.Stats.{Stats, HistoryView, history_view}
use helius.Proxy.{AppState}

-- The status code, and `status` of the body.
unfoldable pub health : {Limiter : Type 0} → Pool Limiter → ℕ × String
health pool = if has_available_capacity pool then (200, "ok") else (503, "exhausted")

-- The status, the header and the body of `/metrics`, for the text that the recorder renders.
unfoldable pub prometheus : (rendered : String) → ℕ × (String × String) × String
prometheus rendered = (200, ("content-type", "text/plain; version=0.0.4"), rendered)

-- `AppState::uptime_secs`, for two readings of the clock in nanoseconds; a clock that was set back gives a
-- number that is not positive. `whole_seconds` cuts off the fraction.
unfoldable pub uptime_secs : (started_at now_utc : ℕ) → ℤ
uptime_secs started_at now_utc =
    if leb started_at now_utc
    then pos ((now_utc - started_at) / 1_000_000_000)
    else sub_ℕ 0 ((started_at - now_utc) / 1_000_000_000)

pub record StatsView : Type 0 where
  pub uptime_secs : ℤ
  pub gateway_bind : String
  pub current_month : ℕ
  pub all_exhausted_total : ℕ
  pub upstreams : List UpstreamStat

module _ {Limiter Url : Type 0} where
  unfoldable pub stats : (started_at now_utc now_ms : ℕ) → AppState Limiter Url → StatsView
  unfolding uptime_secs
  stats started_at now_utc now_ms state = record {
    uptime_secs = uptime_secs started_at now_utc;
    gateway_bind = state.config.gateway.bind;
    current_month = state.stats.current_month;
    all_exhausted_total = state.stats.all_exhausted;
    upstreams = pool_stats now_ms state.pool;
  }

  unfoldable pub stats_history : AppState Limiter Url → HistoryView
  stats_history state = history_view state.pool state.stats

module _ {Limiter : Type 0} where
  any-Any :
      (ups : List (Upstream Limiter))
      → (any (λ u. u.enabled && ltb 0 (remaining_credits u)) ups ≡ true)
        ↔ Any (λ u. (u.enabled ≡ true) × (u.credits_used < u.credit_cap)) ups
  unfolding remaining_credits
  any-Any [] = ground arith
  any-Any (u ∷ ups) = ground (arith, any-Any ups)

  -- The health endpoint answers 200 exactly when some enabled key is below its cap, whatever its cooldown
  -- and its buckets, and 503 otherwise.
  pub health_iff :
      (pool : Pool Limiter)
      → (((health pool).0 ≡ 200)
          ↔ Any (λ u. (u.enabled ≡ true) × (u.credits_used < u.credit_cap)) pool.upstreams)
        × (((health pool).0 ≡ 503)
            ↔ ¬ Any (λ u. (u.enabled ≡ true) × (u.credits_used < u.credit_cap)) pool.upstreams)
  unfolding health has_available_capacity
  health_iff pool = ground (arith, any-Any pool.upstreams)
