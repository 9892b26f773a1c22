-- ===== src/Proxy/Handler.antt =====
-- The handler of src/proxy.rs with its retry loop. One request runs alone here:
-- between two of its steps nothing else changes the pool or the statistics.
use helius.Common.{
  ℕ, zero, suc, Option, none, some, List, [], ◌∷◌, ◌++◌, if◌then◌else◌, ltb, length, get_elem?,
  add_u32, sub_u32,
}
use helius.Credits.{Parsed, parse_body, request_cost, primary_class}
use helius.Metrics.{Event, gauge_inc, gauge_dec, histogram, inflight, request_duration_seconds}
use helius.Upstream.{Upstream, expose}
use helius.Pool.{Pool, Request, select}
use helius.Stats.{Stats}
use helius.Error.{payload_too_large, Result, ok, err, ErrorResponse, into_response}
use helius.Proxy.Wire.{
  Buffered, is_rate_limited, forwarded_headers, build_response, check_gateway_auth,
  build_upstream_url,
}
use helius.Proxy.Arms.{
  Libraries, AppState, Incoming, Outgoing, Turn, Next, carry_on, exhausted, on_rate_limited,
  on_served, on_failed, update_key, returned, retried,
}

module _ {Limiter Url : Type 0} (lib : Libraries Limiter Url) (base : Url) (req : Incoming) where
  unfoldable pub outgoing : Upstream Limiter → Outgoing Url
  outgoing up = record {
    method = req.method;
    url = build_upstream_url lib.http base req.uri (expose up.api_key);
    headers = forwarded_headers req.headers;
    body = req.body;
  }

  unfoldable pub forward_once :
      Turn Url → Upstream Limiter → Option Buffered × Upstream Limiter × List Event
  forward_once turn up =
      let sent = record up { in_flight = add_u32 up.in_flight 1 } in
      let result = turn.send (outgoing up) in
      (
        result,
        record sent { in_flight = sub_u32 sent.in_flight 1 },
        gauge_inc inflight up.name ∷ gauge_dec inflight up.name ∷ [],
      )

  -- The arms of `match result`, for the key at an index.
  unfoldable pub settle :
      (est : ℕ)
      → Parsed
      → Turn Url
      → (idx : ℕ) → Upstream Limiter
      → Stats
      → Next × Upstream Limiter × Stats × List Event
  settle est parsed turn idx up stats =
      let (result, up', sent) = forward_once turn up in
      elim result [
        | some buf ↦
            if is_rate_limited lib.peek buf
            then (let (up'', events) = on_rate_limited turn.now_ms up' in
                (retried idx, up'', stats, sent ++ events))
            else (let (up'', stats', events) = on_served est parsed up' stats in
                (returned (ok (build_response buf)), up'', stats', sent ++ events))
        | none ↦ let (up'', events) = on_failed up' in (retried idx, up'', stats, sent ++ events)
      ]

  -- With the key at the index that `select` gave. The handle of `select` is an index into the pool, so the
  -- case without a key there does not arise.
  unfoldable pub with_key :
      (est : ℕ)
      → Parsed
      → Turn Url
      → (idx : ℕ) → Pool Limiter
      → Stats
      → Option (Upstream Limiter)
      → Next × Pool Limiter × Stats × List Event
  with_key est parsed turn idx pool stats none = (retried idx, pool, stats, [])
  with_key est parsed turn idx pool stats (some up) =
      let (next, up', stats', events) = settle est parsed turn idx up stats in
      (next, update_key idx (λ _. up') pool, stats', events)

  -- The rest of one pass through the loop, after `select`.
  unfoldable pub with_selected :
      (est : ℕ)
      → Parsed
      → Turn Url
      → Option ℕ
      → Pool Limiter
      → Stats
      → Next × Pool Limiter × Stats × List Event
  with_selected est parsed turn none pool stats =
      let (e, stats', events) = exhausted pool stats turn.now_ms in
      (returned (err e), pool, stats', events)
  with_selected est parsed turn (some idx) pool stats =
      with_key est parsed turn idx pool stats (get_elem? pool.upstreams idx)

  unfoldable pub asking : (est : ℕ) → Parsed → Turn Url → (skip : List ℕ) → Request Limiter
  asking est parsed turn skip = record {
    governor = lib.governor;
    clock = turn.clock;
    class = primary_class parsed;
    est_cost = est;
    skip = skip;
    now_ms = turn.now_ms;
  }

  -- One pass through the loop.
  unfoldable pub attempt :
      (est : ℕ)
      → Parsed
      → Turn Url
      → (skip : List ℕ) → Pool Limiter
      → Stats
      → Next × Pool Limiter × Stats × List Event
  attempt est parsed turn skip pool stats =
      let (selected, pool') = select (asking est parsed turn skip) pool in
      with_selected est parsed turn selected pool' stats

  -- `for _ in 0..max_retries` with `left` passes to go, the next of them meeting `turns i`, and what
  -- follows the loop.
  unfoldable pub attempts :
      (est : ℕ)
      → Parsed
      → (turns : ℕ → Turn Url) → (left i : ℕ) → (skip : List ℕ) → Pool Limiter
      → Stats
      → Result Buffered × Pool Limiter × Stats × List Event
  attempts est parsed turns zero i skip pool stats =
      let (e, stats', events) = exhausted pool stats (turns i).now_ms in
      (err e, pool, stats', events)
  attempts est parsed turns (suc left) i skip pool stats =
      carry_on (attempt est parsed (turns i) skip pool stats)
        (λ idx. attempts est parsed turns left (suc i) (skip ++ idx ∷ []))

-- What a client gets: a relayed response or one of the gateway's own.
pub data Reply : Type 0 where
  relayed : Buffered → Reply
  refused : ErrorResponse → Reply

unfoldable pub reply_of : Result Buffered → Reply
reply_of (ok buf) = relayed buf
reply_of (err e) = refused (into_response e)

module _ {Limiter Url : Type 0} (lib : Libraries Limiter Url) (turns : ℕ → Turn Url)
    (req : Incoming) where
  -- The body of `proxy` behind `check_gateway_auth(…)?`, for its result.
  unfoldable pub authorized :
      AppState Limiter Url → Result Unit → Result Buffered × AppState Limiter Url × List Event
  authorized state (err e) = (err e, state, [])
  authorized state (ok _) =
      if ltb state.config.gateway.max_body_bytes (length req.body)
      then (err payload_too_large, state, [])
      else (let parsed = parse_body lib.serde req.uri.path req.body in
          let est = request_cost parsed state.costs in
          let (result, pool, stats, events) =
            attempts lib state.upstream_base req est parsed turns state.config.gateway.max_retries 0
              [] state.pool state.stats in
          (result, record state { pool = pool; stats = stats }, events))

  unfoldable pub proxy : AppState Limiter Url → Result Buffered × AppState Limiter Url × List Event
  proxy state =
      authorized state
        (check_gateway_auth lib.http state.config.gateway.api_key req.uri req.headers)

  unfoldable pub handle : AppState Limiter Url → Reply × AppState Limiter Url × List Event
  handle state =
      let (result, state', events) = proxy state in
      (reply_of result, state', events ++ histogram request_duration_seconds ∷ [])
