-- ===== src/Stats/Record.antt =====
-- The records of closed accounting periods in src/stats.rs, and how they are taken from the pool.
use helius.Common.{ℕ, String, List, map, ◌-◌, ◌&&◌, ltb, length, drop, sum_u64, if◌then◌else◌}
use helius.Upstream.{Upstream, daily_used}
use helius.Pool.{Pool}

pub record UsagePoint : Type 0 where
  pub name : String
  pub credits_used : ℕ

pub record MonthlyRecord : Type 0 where
  pub month : ℕ
  pub total_credits : ℕ
  pub upstreams : List UsagePoint

pub record DailyRecord : Type 0 where
  pub day : ℕ
  pub total_credits : ℕ
  pub upstreams : List UsagePoint

-- The most recent `max` entries; 0 keeps all.
unfoldable pub trim_front {ℓ} : {A : Type ℓ} → List A → ℕ → List A
trim_front v max = if ltb 0 max && ltb max (length v) then drop (length v - max) v else v

-- `upstreams.iter().map(|u| u.credits_used).sum()`
unfoldable pub total_of : List UsagePoint → ℕ
total_of points = sum_u64 (map (λ u. u.credits_used) points)

module _ {Limiter : Type 0} where
  unfoldable pub usage_points : Pool Limiter → (Upstream Limiter → ℕ) → List UsagePoint
  usage_points pool used = map (λ u. record { name = u.name; credits_used = used u }) pool.upstreams

  unfoldable pub capture_month : Pool Limiter → ℕ → MonthlyRecord
  unfolding usage_points total_of
  capture_month pool month =
      let upstreams = usage_points pool (λ u. u.credits_used) in
      record { month = month; total_credits = total_of upstreams; upstreams = upstreams }

  unfoldable pub capture_day : Pool Limiter → ℕ → DailyRecord
  unfolding usage_points total_of daily_used
  capture_day pool day =
      let upstreams = usage_points pool daily_used in
      record { day = day; total_credits = total_of upstreams; upstreams = upstreams }
