-- ===== src/Pool/View.antt =====
-- The reads of all keys in src/upstream.rs.
use helius.Common.{
  ℕ, String, Bool, ◌&&◌, Option, none, some, List, [], ◌∷◌, map, max, ltb, ◌==◌, string_eq, any,
  find, min_by_key, div_ceil, if◌then◌else◌,
}
use helius.Upstream.{Upstream, UpstreamStat, stat, remaining_credits, cooldown_remaining_ms}
use helius.Pool.Select.{Pool}

-- `.map(|ms| ms.div_ceil(1000).max(1))`
abbrev pub hint : Option ℕ → Option ℕ
hint none = none
hint (some ms) = some (max (div_ceil ms 1000) 1)

module _ {Limiter : Type 0} where
  unfoldable pub has_available_capacity : Pool Limiter → Bool
  has_available_capacity p = any (λ u. u.enabled && ltb 0 (remaining_credits u)) p.upstreams

  -- `.map(|u| u.cooldown_remaining_ms(now_ms)).filter(|&ms| ms > 0)`
  unfoldable pub cooling : ℕ → List (Upstream Limiter) → List ℕ
  cooling now_ms [] = []
  cooling now_ms (u ∷ us) =
      let ms = cooldown_remaining_ms now_ms u in
      let rest = cooling now_ms us in if ltb 0 ms then ms ∷ rest else rest

  unfoldable pub soonest_cooldown_secs : ℕ → Pool Limiter → Option ℕ
  soonest_cooldown_secs now_ms p = hint (min_by_key (λ ms. ms) (cooling now_ms p.upstreams))

  unfoldable pub find_by_name : String → Pool Limiter → Option (Upstream Limiter)
  find_by_name name p = find (λ u. u.name == name) p.upstreams

  unfoldable pub stats : ℕ → Pool Limiter → List UpstreamStat
  unfolding stat
  stats now_ms p = map (stat now_ms) p.upstreams
