-- ===== src/Upstream/Stat.antt =====
-- `UpstreamStat` of src/upstream.rs, the view of a key for `/stats`.
use helius.Common.{ℕ, String, Bool}
use helius.Upstream.Key.{Upstream, remaining_credits, cooldown_remaining_ms}

pub record UpstreamStat : Type 0 where
  pub name : String
  pub credits_used : ℕ
  pub credit_cap : ℕ
  pub remaining : ℕ
  pub credits_total : ℕ
  pub requests_ok : ℕ
  pub requests_rate_limited : ℕ
  pub requests_error : ℕ
  pub rate_limit_hits : ℕ
  pub in_flight : ℕ
  pub cooldown_ms_left : ℕ
  pub enabled : Bool

unfoldable pub stat : {Limiter : Type 0} → ℕ → Upstream Limiter → UpstreamStat
unfolding remaining_credits cooldown_remaining_ms
stat now_ms up = record {
  name = up.name;
  credits_used = up.credits_used;
  credit_cap = up.credit_cap;
  remaining = remaining_credits up;
  credits_total = up.credits_total;
  requests_ok = up.requests_ok;
  requests_rate_limited = up.requests_rate_limited;
  requests_error = up.requests_error;
  rate_limit_hits = up.rate_limit_hits;
  in_flight = up.in_flight;
  cooldown_ms_left = cooldown_remaining_ms now_ms up;
  enabled = up.enabled;
}
