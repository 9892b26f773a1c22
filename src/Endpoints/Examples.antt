-- ===== src/Endpoints/Examples.antt =====
-- Tests and instances for the endpoints of src/metrics.rs.
use helius.Common.{ℕ, true, [], ◌∷◌, ◌≡◌, ◌↔◌, ◌<◌, Any, refl}
use helius.Config.{UpstreamConfig, default_rps}
use helius.Ratelimit.Counting.{counting}
use helius.Upstream.{Upstream, from_config, remaining_credits}
use helius.Pool.{Pool, has_available_capacity}
use helius.Endpoints.{health, health_iff}

abbrev key : UpstreamConfig
key = record { name = "a"; api_key = "k"; credit_cap = 100; enabled = true }

abbrev spent : Upstream ℕ
spent = record (from_config counting key default_rps) { credits_used = 100 }

abbrev spent_pool : Pool ℕ
spent_pool = record { upstreams = spent ∷ []; cursor = 0 }

exhausted_health : health spent_pool ≡ (503, "exhausted")
unfolding health has_available_capacity remaining_credits from_config
exhausted_health = refl

health_iff_example :
    (((health spent_pool).0 ≡ 200)
      ↔ Any (λ u. (u.enabled ≡ true) × (u.credits_used < u.credit_cap)) spent_pool.upstreams)
    × (((health spent_pool).0 ≡ 503)
        ↔ ¬ Any (λ u. (u.enabled ≡ true) × (u.credits_used < u.credit_cap)) spent_pool.upstreams)
health_iff_example = health_iff spent_pool
