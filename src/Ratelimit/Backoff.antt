-- ===== src/Ratelimit/Backoff.antt =====
-- `now_ms` and `backoff_with_jitter` of src/ratelimit.rs.
use helius.Common.{
  ℕ, Option, none, some, ◌*◌, ◌/◌, ◌%◌, ◌^◌, min, ◌==◌, nat_eq, if◌then◌else◌, u64_mod,
}
use helius.Common.Int.{ℤ, pos, ◌+ℤ◌, ◌-ℤ◌, as_i64, as_u64, max_zero, half}

-- For the time since the Unix epoch in nanoseconds, which a clock before the epoch does not give.
unfoldable pub now_ms : (since_epoch : Option ℕ) → ℕ
now_ms (some nanos) = nanos / 1_000_000 % u64_mod
now_ms none = 0

-- `(1000u64 << step.min(5)).min(30_000)`
unfoldable pub backoff_base : ℕ → ℕ
backoff_base step = min (1000 * 2 ^ min step 5 % u64_mod) 30_000

unfoldable pub backoff_with_jitter : ℕ → ℕ → ℕ
unfolding ◌+ℤ◌ ◌-ℤ◌ as_i64 as_u64 max_zero half
backoff_with_jitter step now_ms =
    let base = backoff_base step in
    let span = base / 2 in
    let jitter : ℤ = if span == 0 then pos 0 else as_i64 (now_ms % span) -ℤ half (as_i64 span) in
    as_u64 (max_zero (as_i64 base +ℤ jitter))
