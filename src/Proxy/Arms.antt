-- ===== src/Proxy/Arms.antt =====
-- The state that src/proxy.rs shares (src/state.rs), what a request and its tries are, and the arms of the
-- loop in `proxy`, each for one key.
use helius.Common.{ℕ, String, Option, List, [], ◌∷◌, ◌++◌, modify, saturating_sub}
use helius.Common.Int.{ℤ}
use helius.Config.{Config}
use helius.Credits.{Parsed, Serde, CostTable, from_config as costs_from_config}
use helius.Metrics.{
  Event, counter, gauge_set, rate_limit_hits_total, requests_total, upstream_errors_total,
  credits_consumed_total, credits_remaining,
}
use helius.Ratelimit.{Governor}
use helius.Upstream.{
  Upstream, add_credits, trip_cooldown, note_success, record_ok, record_rate_limited, record_error,
}
use helius.Pool.{Pool, soonest_cooldown_secs, from_config as pool_from_config}
use helius.Stats.{Stats, new_stats, record_exhausted, record_methods}
use helius.Error.{ProxyError, all_upstreams_exhausted, Result}
use helius.Proxy.Wire.{Header, Uri, Buffered, Http}

-- What the libraries do: the buckets, the headers and URLs, and the JSON decoder.
pub record Libraries (Limiter Url : Type 0) : Type 0 where
  pub governor : Governor Limiter
  pub http : Http Url
  pub serde : Serde
  pub peek : List ℕ → Option (Option ℤ)

-- The fields of `AppState` that the handler reads and changes.
pub record AppState (Limiter Url : Type 0) : Type 0 where
  pub config : Config
  pub upstream_base : Url
  pub pool : Pool Limiter
  pub costs : CostTable
  pub stats : Stats

-- `AppState::new`, for a base that `Url::parse` takes.
unfoldable pub new_state :
    {Limiter Url : Type 0}
    → Governor Limiter
    → Config
    → (upstream_base : Url) → AppState Limiter Url
new_state governor config upstream_base = record {
  config = config;
  upstream_base = upstream_base;
  pool = pool_from_config governor config.upstreams config.rps;
  costs = costs_from_config config.costs;
  stats = new_stats;
}

-- What the client sent.
pub record Incoming : Type 0 where
  pub method : String
  pub uri : Uri
  pub headers : List Header
  pub body : List ℕ

-- What the gateway sends to an upstream.
pub record Outgoing (Url : Type 0) : Type 0 where
  pub method : String
  pub url : Url
  pub headers : List Header
  pub body : List ℕ

-- What one try meets: the time, the bucket clock during its scan, and what becomes of the request that is
-- sent, where `none` is a `reqwest::Error`.
pub record Turn (Url : Type 0) : Type 0 where
  pub now_ms : ℕ
  pub clock : ℕ → ℕ
  pub send : Outgoing Url → Option Buffered

-- What the loop does after a try: it returns, or adds an index to `skip` and goes on.
pub data Next : Type 0 where
  returned : Result Buffered → Next
  retried : ℕ → Next

-- `return`, or the passes that are left.
unfoldable pub carry_on :
    {Limiter : Type 0}
    → Next × Pool Limiter × Stats × List Event
    → (ℕ → Pool Limiter → Stats → Result Buffered × Pool Limiter × Stats × List Event)
    → Result Buffered × Pool Limiter × Stats × List Event
carry_on (returned result, pool, stats, events) rest = (result, pool, stats, events)
carry_on (retried idx, pool, stats, events) rest =
    let (result, pool', stats', later) = rest idx pool stats in
    (result, pool', stats', events ++ later)

module _ {Limiter : Type 0} where
  unfoldable pub exhausted : Pool Limiter → Stats → (now_ms : ℕ) → ProxyError × Stats × List Event
  exhausted pool stats now_ms =
      let (stats', events) = record_exhausted stats in
      (all_upstreams_exhausted (soonest_cooldown_secs now_ms pool), stats', events)

  unfoldable pub commit_credits :
      (est : ℕ) → Parsed → Upstream Limiter → Stats → Upstream Limiter × Stats × List Event
  commit_credits est parsed up stats =
      let (up', used) = add_credits est up in
      let (stats', events) = record_methods parsed stats in
      (
        up',
        stats',
        counter credits_consumed_total (up.name ∷ []) est
            ∷ gauge_set credits_remaining up.name (saturating_sub up.credit_cap used)
            ∷ events,
      )

  -- The arm of a rate-limited reply.
  unfoldable pub on_rate_limited : (now_ms : ℕ) → Upstream Limiter → Upstream Limiter × List Event
  on_rate_limited now_ms up = (
    record_rate_limited (trip_cooldown now_ms up),
    counter rate_limit_hits_total (up.name ∷ []) 1
        ∷ counter requests_total (up.name ∷ "rate_limited" ∷ []) 1
        ∷ [],
  )

  -- The arm of any other reply.
  unfoldable pub on_served :
      (est : ℕ) → Parsed → Upstream Limiter → Stats → Upstream Limiter × Stats × List Event
  on_served est parsed up stats =
      let (up', stats', events) = commit_credits est parsed (record_ok (note_success up)) stats in
      (up', stats', events ++ counter requests_total (up.name ∷ "ok" ∷ []) 1 ∷ [])

  -- The arm of an error.
  unfoldable pub on_failed : Upstream Limiter → Upstream Limiter × List Event
  on_failed up = (
    record_error up,
    counter upstream_errors_total (up.name ∷ "transient" ∷ []) 1
        ∷ counter requests_total (up.name ∷ "error" ∷ []) 1
        ∷ [],
  )

  unfoldable pub update_key :
      ℕ → (Upstream Limiter → Upstream Limiter) → Pool Limiter → Pool Limiter
  update_key idx f pool = record pool { upstreams = modify idx f pool.upstreams }
