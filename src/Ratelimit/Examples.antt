-- ===== src/Ratelimit/Examples.antt =====
-- Tests and instances for src/ratelimit.rs.
use helius.Common.{◌≡◌, refl, ◌*◌, ◌≤◌, min, nat_eq}
use helius.Credits.{class_eq}
use helius.Ratelimit.Backoff.{backoff_base, backoff_with_jitter}
use helius.Ratelimit.Band.{backoff_base-suc, backoff_with_jitter_band}

fixed_backoffs :
    (backoff_with_jitter 0 0 ≡ 750)
    × (backoff_with_jitter 1 0 ≡ 1500)
    × (backoff_with_jitter 9 0 ≡ 22_500)
unfolding backoff_with_jitter backoff_base
fixed_backoffs = (refl, refl, refl)

backoff_with_jitter_band_example :
    (3 * backoff_base 2 ≤ 4 * backoff_with_jitter 2 123)
    × (4 * backoff_with_jitter 2 123 ≤ 5 * backoff_base 2)
backoff_with_jitter_band_example = backoff_with_jitter_band 2 123

backoff_base-suc_example :
    (backoff_base 0 ≡ 1000) × (backoff_base 5 ≡ min (2 * backoff_base 4) 30_000)
backoff_base-suc_example = backoff_base-suc 4
