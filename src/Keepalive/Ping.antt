-- ===== src/Keepalive/Ping.antt =====
-- `ping_all` of src/keepalive.rs. One round runs alone.
use helius.Common.{
  ℕ, suc, not, ◌||◌, Option, none, some, List, [], ◌∷◌, ◌++◌, ◌==◌, nat_eq, if◌then◌else◌,
  saturating_sub,
}
use helius.Credits.{cost_of}
use helius.Metrics.{
  Event, counter, gauge_set, keepalive_total, credits_consumed_total, credits_remaining,
}
use helius.Upstream.{
  Upstream, add_credits, has_quota_for, in_cooldown, trip_cooldown, record_rate_limited, expose,
}
use helius.Proxy.{Http, AppState}

-- What one ping meets: the time, and the status of the reply to the request that is posted to a URL, where
-- `none` is an error.
pub record PingTurn (Url : Type 0) : Type 0 where
  pub now_ms : ℕ
  pub post : Url → Option ℕ

module _ {Limiter : Type 0} where
  -- The arms of the `match`.
  unfoldable pub on_reply :
      (cost now_ms : ℕ) → Option ℕ → Upstream Limiter → Upstream Limiter × List Event
  on_reply cost now_ms none up = (up, [])
  on_reply cost now_ms (some status) up =
      if status == 429
      then (record_rate_limited (trip_cooldown now_ms up), [])
      else (let (up', used) = add_credits cost up in
          (
            up',
            counter keepalive_total (up.name ∷ []) 1
                ∷ counter credits_consumed_total (up.name ∷ []) cost
                ∷ gauge_set credits_remaining up.name (saturating_sub up.credit_cap used)
                ∷ [],
          ))

module _ {Limiter Url : Type 0} (http : Http Url) (base : Url) (cost : ℕ) where
  unfoldable pub ping_url : Upstream Limiter → Url
  ping_url up = http.append_pair "api-key" (expose up.api_key) (http.clear base)

  -- One pass through the loop.
  unfoldable pub ping : PingTurn Url → Upstream Limiter → Upstream Limiter × List Event
  ping turn up =
      if not up.enabled || in_cooldown turn.now_ms up || not (has_quota_for cost up)
      then (up, [])
      else on_reply cost turn.now_ms (turn.post (ping_url up)) up

  -- The loop, with the next key meeting `turns i`.
  unfoldable pub ping_keys :
      (turns : ℕ → PingTurn Url)
      → (i : ℕ) → List (Upstream Limiter)
      → List (Upstream Limiter) × List Event
  ping_keys turns i [] = ([], [])
  ping_keys turns i (up ∷ ups) =
      let (up', events) = ping (turns i) up in
      let (ups', later) = ping_keys turns (suc i) ups in (up' ∷ ups', events ++ later)

unfoldable pub ping_all :
    {Limiter Url : Type 0}
    → Http Url
    → (turns : ℕ → PingTurn Url) → AppState Limiter Url
    → AppState Limiter Url × List Event
ping_all http turns state =
    let cost = cost_of state.costs "getHealth" in
    let (ups, events) = ping_keys http state.upstream_base cost turns 0 state.pool.upstreams in
    (record state { pool = record state.pool { upstreams = ups } }, events)
