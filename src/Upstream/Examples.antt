-- ===== src/Upstream/Examples.antt =====
-- Tests and instances for the keys of src/upstream.rs.
use helius.Common.{ℕ, true, false, [], ◌≡◌, refl, arith, ◌+◌, ◌*◌, ◌/◌, ◌%◌, ◌≤◌, ◌<◌, min}
use helius.Ratelimit.{backoff_base}
use helius.Upstream.Key.{
  Upstream, from_string, has_quota_for, add_credits, remaining_credits, trip_cooldown, in_cooldown,
  note_success, fmt,
}
use helius.Upstream.Accounting.{add_credits-has_quota_for}
use helius.Upstream.Calendar.{current_yyyymm, current_yyyymmdd, current_yyyymmdd-date}
use helius.Upstream.Cooldown.{trip_cooldown-in_cooldown, backoff_base-trip_cooldown}

abbrev sample : Upstream ℕ
sample = record {
  name = "a";
  api_key = from_string "key-a";
  credit_cap = 100;
  credits_used = 30;
  epoch_yyyymm = 202606;
  cooldown_until = 0;
  backoff_step = 0;
  in_flight = 0;
  enabled = true;
  credits_total = 130;
  requests_ok = 4;
  requests_rate_limited = 0;
  requests_error = 0;
  rate_limit_hits = 0;
  day_start_total = 120;
  limiters = [];
}

quota :
    (remaining_credits sample ≡ 70)
    × (has_quota_for 70 sample ≡ true)
    × (has_quota_for 71 sample ≡ false)
unfolding remaining_credits has_quota_for
quota = (refl, refl, refl)

hidden_key : fmt sample.api_key ≡ "\"<redacted>\""
unfolding fmt
hidden_key = refl

add_credits-has_quota_for_example :
    ((add_credits 70 sample).0.credits_used ≡ 100)
    × ((add_credits 70 sample).0.credits_total ≡ 200)
    × ((add_credits 70 sample).0.credits_used ≤ (add_credits 70 sample).0.credit_cap)
    × (remaining_credits (add_credits 70 sample).0 + 70 ≡ remaining_credits sample)
    × ((add_credits 70 sample).1 ≡ (add_credits 70 sample).0.credits_used)
unfolding has_quota_for
add_credits-has_quota_for_example =
    add_credits-has_quota_for sample 70 (omega arith) (omega arith) refl

trip_cooldown-in_cooldown_example :
    (1_500 < 1_000 + 750 → in_cooldown 1_500 (trip_cooldown 1_000 sample) ≡ true)
    × (1_000 + 37_500 ≤ 1_500 → in_cooldown 1_500 (trip_cooldown 1_000 sample) ≡ false)
trip_cooldown-in_cooldown_example = trip_cooldown-in_cooldown sample 1_000 1_500 (omega arith)

backoff_base-trip_cooldown_example :
    (backoff_base (trip_cooldown 7 sample).backoff_step ≡ min (2 * backoff_base 0) 30_000)
    × (backoff_base (note_success sample).backoff_step ≡ 1000)
    × ((note_success sample).cooldown_until ≡ 0)
backoff_base-trip_cooldown_example = backoff_base-trip_cooldown sample 7 (omega arith)

current_yyyymmdd-date_example :
    let n = current_yyyymmdd 2026 6 25 in
    (n / 100 ≡ current_yyyymm 2026 6) × (n / 10_000 ≡ 2026) × (n / 100 % 100 ≡ 6) × (n % 100 ≡ 25)
current_yyyymmdd-date_example =
    current_yyyymmdd-date 2026 6 25 (omega arith) (omega arith) (omega arith)
