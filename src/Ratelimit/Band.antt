-- ===== src/Ratelimit/Band.antt =====
-- The cooldown lies in a band of 25% about an exponential base.
use helius.Common.{
  ℕ, zero, suc, ◌+◌, ◌-◌, ◌*◌, ◌/◌, ◌%◌, ◌^◌, ◌≤◌, ◌<◌, min, ◌≡◌, refl, ap, arith, u64_mod, nat_eq,
}
use helius.Ratelimit.Backoff.{backoff_base, backoff_with_jitter}

power_range : (k : ℕ) → k ≤ 5 → (1000 ≤ 1000 * 2 ^ k) × (1000 * 2 ^ k ≤ 32_000)
power_range zero h = omega arith
power_range (suc zero) h = omega arith
power_range (suc (suc zero)) h = omega arith
power_range (suc (suc (suc zero))) h = omega arith
power_range (suc (suc (suc (suc zero)))) h = omega arith
power_range (suc (suc (suc (suc (suc zero))))) h = omega arith
power_range (suc (suc (suc (suc (suc (suc k)))))) h = absurd (omega arith)

pub backoff_base_range : (step : ℕ) → (1000 ≤ backoff_base step) × (backoff_base step ≤ 30_000)
unfolding backoff_base
backoff_base_range step = omega (arith, power_range (min step 5) (omega arith))

backoff_base_capped : (step : ℕ) → 5 ≤ step → backoff_base step ≡ 30_000
unfolding backoff_base
backoff_base_capped step h =
    let e : min step 5 ≡ 5 = omega arith in ap (λ k. min (1000 * 2 ^ k % u64_mod) 30_000) e

-- The base doubles with each step up to 30 seconds, and starts at one second.
pub backoff_base-suc :
    (step : ℕ)
    → (backoff_base 0 ≡ 1000) × (backoff_base (suc step) ≡ min (2 * backoff_base step) 30_000)
unfolding backoff_base
backoff_base-suc zero = (refl, refl)
backoff_base-suc (suc zero) = (refl, refl)
backoff_base-suc (suc (suc zero)) = (refl, refl)
backoff_base-suc (suc (suc (suc zero))) = (refl, refl)
backoff_base-suc (suc (suc (suc (suc zero)))) = (refl, refl)
backoff_base-suc (suc (suc (suc (suc (suc step))))) = (
  refl,
  omega (
    arith,
    backoff_base_capped (suc (suc (suc (suc (suc step))))) (omega arith),
    backoff_base_capped (suc (suc (suc (suc (suc (suc step)))))) (omega arith),
  ),
)

mod_lt : (a b : ℕ) → 0 < b → a % b < b
mod_lt a b h = omega arith

-- The jitter in plain numbers: neither cast nor the cut at 0 changes a value.
pub backoff_with_jitter_lem :
    (step now : ℕ)
    → backoff_with_jitter step now
      ≡ backoff_base step - backoff_base step / 2 / 2 + now % (backoff_base step / 2)
unfolding backoff_with_jitter
backoff_with_jitter_lem step now =
    ground (arith, backoff_base_range step, mod_lt now (backoff_base step / 2))

-- The cooldown is within 25% of its base, on either side.
pub backoff_with_jitter_band :
    (step now : ℕ)
    → (3 * backoff_base step ≤ 4 * backoff_with_jitter step now)
      × (4 * backoff_with_jitter step now ≤ 5 * backoff_base step)
backoff_with_jitter_band step now = omega (
  arith,
  backoff_with_jitter_lem step now,
  backoff_base_range step,
  mod_lt now (backoff_base step / 2),
)
