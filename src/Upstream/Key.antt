-- ===== src/Upstream/Key.antt =====
-- `Upstream` of src/upstream.rs. Each atomic field is a plain field, each method a function to the new
-- key; the getters that only load a field are the fields. One method is one step here: what other
-- threads do between the atomic operations of a method is not part of this file.
use helius.Common.{
  ℕ, String, Bool, true, not, none, some, ◌==◌, nat_eq, if◌then◌else◌, leb, ltb, add_u32, add_u64,
  saturating_add, saturating_sub,
}
use helius.Common.Map.{Map, lookup, insert}
use helius.Config.{RpsConfig, UpstreamConfig}
use helius.Credits.{MethodClass, class_eq}
use helius.Ratelimit.{Governor, build_limiters, backoff_with_jitter}

-- A text whose `Debug` output is the same fixed text whatever it holds.
pub record SecretString : Type 0 where
  inner : String

unfoldable pub from_string : String → SecretString
from_string s = record { inner = s }

unfoldable pub expose : SecretString → String
expose s = s.inner

unfoldable pub fmt : SecretString → String
fmt s = "\"<redacted>\""

pub record Upstream (Limiter : Type 0) : Type 0 where
  pub name : String
  pub api_key : SecretString
  pub credit_cap : ℕ
  pub credits_used : ℕ
  pub epoch_yyyymm : ℕ
  pub cooldown_until : ℕ
  pub backoff_step : ℕ
  pub in_flight : ℕ
  pub enabled : Bool
  pub credits_total : ℕ
  pub requests_ok : ℕ
  pub requests_rate_limited : ℕ
  pub requests_error : ℕ
  pub rate_limit_hits : ℕ
  pub day_start_total : ℕ
  pub limiters : Map MethodClass Limiter

module _ {Limiter : Type 0} where
  unfoldable pub from_config : Governor Limiter → UpstreamConfig → RpsConfig → Upstream Limiter
  unfolding from_string
  from_config g c rps = record {
    name = c.name;
    api_key = from_string c.api_key;
    credit_cap = c.credit_cap;
    credits_used = 0;
    epoch_yyyymm = 0;
    cooldown_until = 0;
    backoff_step = 0;
    in_flight = 0;
    enabled = c.enabled;
    credits_total = 0;
    requests_ok = 0;
    requests_rate_limited = 0;
    requests_error = 0;
    rate_limit_hits = 0;
    day_start_total = 0;
    limiters = build_limiters g rps;
  }

  unfoldable pub daily_used : Upstream Limiter → ℕ
  daily_used up = saturating_sub up.credits_total up.day_start_total

  unfoldable pub start_new_day : Upstream Limiter → Upstream Limiter
  start_new_day up = record up { day_start_total = up.credits_total }

  unfoldable pub restore_day_start : ℕ → Upstream Limiter → Upstream Limiter
  restore_day_start value up = record up { day_start_total = value }

  unfoldable pub record_ok : Upstream Limiter → Upstream Limiter
  record_ok up = record up { requests_ok = add_u64 up.requests_ok 1 }

  unfoldable pub record_rate_limited : Upstream Limiter → Upstream Limiter
  record_rate_limited up = record up {
    requests_rate_limited = add_u64 up.requests_rate_limited 1;
    rate_limit_hits = add_u64 up.rate_limit_hits 1;
  }

  unfoldable pub record_error : Upstream Limiter → Upstream Limiter
  record_error up = record up { requests_error = add_u64 up.requests_error 1 }

  unfoldable pub remaining_credits : Upstream Limiter → ℕ
  remaining_credits up = saturating_sub up.credit_cap up.credits_used

  unfoldable pub has_quota_for : ℕ → Upstream Limiter → Bool
  has_quota_for cost up = leb (saturating_add up.credits_used cost) up.credit_cap

  -- The new key, and the new monthly total.
  unfoldable pub add_credits : ℕ → Upstream Limiter → Upstream Limiter × ℕ
  add_credits cost up = (
    record up {
      credits_used = add_u64 up.credits_used cost;
      credits_total = add_u64 up.credits_total cost;
    },
    add_u64 up.credits_used cost,
  )

  -- Takes a token from the bucket of the class at a reading of the governor's clock.
  unfoldable pub try_acquire :
      Governor Limiter → ℕ → MethodClass → Upstream Limiter → Bool × Upstream Limiter
  try_acquire g instant class up = elim (lookup class up.limiters) [
    | some l ↦
        let (granted, l') = g.check instant l in
        (granted, record up { limiters = insert class l' up.limiters })
    | none ↦ (true, up)
  ]

  unfoldable pub in_cooldown : ℕ → Upstream Limiter → Bool
  in_cooldown now_ms up = ltb now_ms up.cooldown_until

  unfoldable pub cooldown_remaining_ms : ℕ → Upstream Limiter → ℕ
  cooldown_remaining_ms now_ms up = saturating_sub up.cooldown_until now_ms

  unfoldable pub trip_cooldown : ℕ → Upstream Limiter → Upstream Limiter
  trip_cooldown now_ms up = record up {
    backoff_step = add_u32 up.backoff_step 1;
    cooldown_until = add_u64 now_ms (backoff_with_jitter up.backoff_step now_ms);
  }

  unfoldable pub note_success : Upstream Limiter → Upstream Limiter
  note_success up = if not (up.backoff_step == 0) then record up { backoff_step = 0 } else up

  unfoldable pub reset_monthly : ℕ → Upstream Limiter → Upstream Limiter
  reset_monthly cur_yyyymm up = record up { epoch_yyyymm = cur_yyyymm; credits_used = 0 }

  unfoldable pub restore_monthly : ℕ → ℕ → Upstream Limiter → Upstream Limiter
  restore_monthly cur_yyyymm used up = record up { epoch_yyyymm = cur_yyyymm; credits_used = used }

  unfoldable pub restore_lifetime :
      (total ok limited error hits : ℕ) → Upstream Limiter → Upstream Limiter
  restore_lifetime total ok limited error hits up = record up {
    credits_total = total;
    requests_ok = ok;
    requests_rate_limited = limited;
    requests_error = error;
    rate_limit_hits = hits;
  }
