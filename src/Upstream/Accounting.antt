-- ===== src/Upstream/Accounting.antt =====
-- Credits: the cap, the monthly and the daily counters and the lifetime total of one key.
use helius.Common.{ℕ, true, ◌+◌, ◌≤◌, ◌<◌, ◌≡◌, ◌↔◌, arith, u64_mod}
use helius.Upstream.Key.{
  Upstream, has_quota_for, add_credits, remaining_credits, daily_used, start_new_day,
}

module _ {Limiter : Type 0} where
  -- A key has quota for a cost exactly when the cost fits into what is left of its cap, and no more
  -- than the cap has been used. The cap is below the largest u64, where the sum saturates.
  pub has_quota_for_iff :
      (up : Upstream Limiter) (cost : ℕ)
      → up.credit_cap + 1 < u64_mod
      → (has_quota_for cost up ≡ true) ↔ (up.credits_used + cost ≤ up.credit_cap)
  unfolding has_quota_for
  has_quota_for_iff up cost h = ground arith

  -- Charging a key that has quota keeps it within its cap; the monthly counter and the lifetime total
  -- grow by the cost, what remains falls by it, and the reply is the new monthly counter.
  pub add_credits-has_quota_for :
      (up : Upstream Limiter) (cost : ℕ)
      → up.credit_cap + 1 < u64_mod
      → up.credits_total + cost < u64_mod
      → has_quota_for cost up ≡ true
      → let (up', used) = add_credits cost up in
        (up'.credits_used ≡ up.credits_used + cost)
        × (up'.credits_total ≡ up.credits_total + cost)
        × (up'.credits_used ≤ up'.credit_cap)
        × (remaining_credits up' + cost ≡ remaining_credits up)
        × (used ≡ up'.credits_used)
  unfolding has_quota_for add_credits remaining_credits
  add_credits-has_quota_for up cost c t q = ground arith

  -- Usage of the day: none at its start, and what is charged from then on.
  pub daily_used-add_credits :
      (up : Upstream Limiter) (cost : ℕ)
      → up.day_start_total ≤ up.credits_total
      → up.credits_total + cost < u64_mod
      → (daily_used (start_new_day up) ≡ 0)
        × (daily_used (add_credits cost up).0 ≡ daily_used up + cost)
  unfolding daily_used start_new_day add_credits
  daily_used-add_credits up cost d t = omega arith
