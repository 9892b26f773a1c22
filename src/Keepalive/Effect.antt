-- ===== src/Keepalive/Effect.antt =====
-- What a round of src/keepalive.rs does to each key.
use helius.Common.{ℕ, suc, true, List, [], ◌∷◌, ◌≡◌, ◌⊎◌, arith, ◌+◌, ◌≤◌, ◌<◌, nat_eq, u64_mod}
use helius.Credits.{cost_of}
use helius.Upstream.{
  Upstream, add_credits, has_quota_for, in_cooldown, trip_cooldown, record_rate_limited,
}
use helius.Pool.Choice.{AreCapped}
use helius.Proxy.{Http, AppState}
use helius.Keepalive.Ping.{PingTurn, on_reply, ping, ping_keys, ping_all}

module _ {Limiter : Type 0} where
  -- A ping leaves a key alone, or the key was enabled and out of its cooldown, and it either was charged
  -- the cost within its cap or was rate-limited, which costs nothing.
  abbrev pub IsPinged : (cost now_ms : ℕ) → (before after : Upstream Limiter) → Type 0
  IsPinged cost now_ms before after =
      (after ≡ before)
      ⊎ ((before.enabled ≡ true)
          × (before.cooldown_until ≤ now_ms)
          × (before.credits_used + cost ≤ before.credit_cap)
          × (((after.credits_used ≡ before.credits_used + cost)
                × (after.cooldown_until ≡ before.cooldown_until))
              ⊎ ((after.credits_used ≡ before.credits_used)
                  × (after ≡ record_rate_limited (trip_cooldown now_ms before)))))

module _ {Limiter Url : Type 0} where
  abbrev pub ArePinged :
      ℕ → (ℕ → PingTurn Url) → ℕ → (before after : List (Upstream Limiter)) → Type 0
  ArePinged cost turns i [] [] = Unit
  ArePinged cost turns i [] (a ∷ after) = ⊥
  ArePinged cost turns i (b ∷ before) [] = ⊥
  ArePinged cost turns i (b ∷ before) (a ∷ after) =
      IsPinged cost (turns i).now_ms b a × ArePinged cost turns (suc i) before after

module _ {Limiter Url : Type 0} (http : Http Url) (base : Url) (cost : ℕ) where
  ping-IsPinged :
      (turn : PingTurn Url) (up : Upstream Limiter)
      → up.credit_cap + 1 < u64_mod
      → IsPinged cost turn.now_ms up (ping http base cost turn up).0
  unfolding ping on_reply add_credits has_quota_for in_cooldown trip_cooldown record_rate_limited
  ping-IsPinged turn up capped = ground arith

  ping_keys-ArePinged :
      (turns : ℕ → PingTurn Url) (i : ℕ) (ups : List (Upstream Limiter))
      → AreCapped ups
      → ArePinged cost turns i ups (ping_keys http base cost turns i ups).0
  unfolding ping_keys
  ping_keys-ArePinged turns i [] capped = tt
  ping_keys-ArePinged turns i (up ∷ ups) capped =
      (ping-IsPinged (turns i) up capped.0, ping_keys-ArePinged turns (suc i) ups capped.1)

-- A round of pings leaves each key alone, or finds it enabled, out of its cooldown and with quota for the
-- cost of `getHealth`, and either adds that cost to its monthly counter or puts it on cooldown without
-- charging it. The caps are below the largest u64.
pub ping_all-ArePinged :
    {Limiter Url : Type 0} (http : Http Url) (turns : ℕ → PingTurn Url)
    (state : AppState Limiter Url)
    → AreCapped state.pool.upstreams
    → ArePinged
        (cost_of state.costs "getHealth")
        turns
        0
        state.pool.upstreams
        (ping_all http turns state).0.pool.upstreams
unfolding ping_all
ping_all-ArePinged http turns state capped =
    ping_keys-ArePinged http state.upstream_base (cost_of state.costs "getHealth") turns 0
      state.pool.upstreams capped
