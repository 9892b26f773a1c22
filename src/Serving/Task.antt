-- ===== src/Serving/Task.antt =====
-- A request of src/proxy.rs, and a ping of src/keepalive.rs, cut where they wait for an upstream: what runs
-- between two waits is one step. The events for the recorder are those of the Proxy and Keepalive modules.
use helius.Common.{
  ℕ, zero, suc, Option, none, some, List, [], ◌∷◌, ◌++◌, if◌then◌else◌, not, ◌||◌, length, ltb,
  get_elem?, add_u32, sub_u32,
}
use helius.Credits.{Parsed, parse_body, request_cost}
use helius.Upstream.{Upstream, has_quota_for, in_cooldown}
use helius.Pool.{select}
use helius.Stats.{Stats}
use helius.Error.{Result, ok, err, payload_too_large}
use helius.Proxy.{
  Libraries, AppState, Incoming, Turn, Buffered, exhausted, on_rate_limited, on_served, on_failed,
  update_key, asking, is_rate_limited, build_response, check_gateway_auth,
}
use helius.Keepalive.{on_reply}

-- What stays fixed while a request is tried.
pub record Job : Type 0 where
  pub req : Incoming
  pub parsed : Parsed
  pub est : ℕ

-- Where a request stands: at the head of the loop with passes left, waiting for the reply of a key that was
-- selected at a time, at its end, or dropped while it waited for the reply of a key. The pinger waits for the
-- reply of a key, or is between two keys.
pub data Task : Type 0 where
  ready : Job → (left : ℕ) → (skip : List ℕ) → Task
  waiting : Job → (left : ℕ) → (skip : List ℕ) → (idx now_ms : ℕ) → Task
  ended : Result Buffered → Task
  dropped : (idx : ℕ) → Task
  pinging : (idx now_ms cost : ℕ) → Task
  resting : Task

module _ {Limiter : Type 0} where
  -- `in_flight.fetch_add(1)` and `in_flight.fetch_sub(1)`.
  unfoldable pub take_off : Upstream Limiter → Upstream Limiter
  take_off up = record up { in_flight = add_u32 up.in_flight 1 }

  unfoldable pub land : Upstream Limiter → Upstream Limiter
  land up = record up { in_flight = sub_u32 up.in_flight 1 }

  -- A ping of the key at an index, up to its wait; the loop passes over a key that may not be pinged.
  unfoldable pub start_ping : (cost idx now_ms : ℕ) → Option (Upstream Limiter) → Task
  start_ping cost idx now_ms none = resting
  start_ping cost idx now_ms (some up) =
      if not up.enabled || in_cooldown now_ms up || not (has_quota_for cost up)
      then resting
      else pinging idx now_ms cost

module _ {Limiter Url : Type 0} where
  -- The end of a request that no key serves.
  unfoldable pub give_up : (now_ms : ℕ) → AppState Limiter Url → Task × AppState Limiter Url
  give_up now_ms app =
      let (e, stats, _) = exhausted app.pool app.stats now_ms in
      (ended (err e), record app { stats = stats })

  -- With the key at the index that `select` gave, up to the wait for its reply. As in `with_key`, the case
  -- without a key does not arise.
  unfoldable pub depart :
      Job
      → (left : ℕ) → (skip : List ℕ) → (idx now_ms : ℕ) → AppState Limiter Url
      → Option (Upstream Limiter)
      → Task × AppState Limiter Url
  depart job left skip idx now_ms app none = (ready job left (skip ++ idx ∷ []), app)
  depart job left skip idx now_ms app (some up) = (
    waiting job left skip idx now_ms,
    record app { pool = update_key idx (λ _. take_off up) app.pool },
  )

  unfoldable pub after_select :
      Job
      → (left : ℕ) → (skip : List ℕ) → (now_ms : ℕ) → Option ℕ
      → AppState Limiter Url
      → Task × AppState Limiter Url
  after_select job left skip now_ms none app = give_up now_ms app
  after_select job left skip now_ms (some idx) app =
      depart job left skip idx now_ms app (get_elem? app.pool.upstreams idx)

  -- The rest of a ping, for the status of the reply.
  unfoldable pub end_ping :
      (idx now_ms cost : ℕ)
      → Option ℕ
      → AppState Limiter Url
      → Option (Upstream Limiter)
      → AppState Limiter Url
  end_ping idx now_ms cost status app none = app
  end_ping idx now_ms cost status app (some up) = record app {
    pool = update_key idx (λ _. (on_reply cost now_ms status up).0) app.pool;
  }

module _ {Limiter Url : Type 0} (lib : Libraries Limiter Url) where
  -- `proxy` behind `check_gateway_auth(…)?`, for its result, up to the head of the loop.
  unfoldable pub admit : AppState Limiter Url → Incoming → Result Unit → Task
  admit app req (err e) = ended (err e)
  admit app req (ok _) =
      if ltb app.config.gateway.max_body_bytes (length req.body)
      then ended (err payload_too_large)
      else (let parsed = parse_body lib.serde req.uri.path req.body in
          ready (record { req = req; parsed = parsed; est = request_cost parsed app.costs })
            app.config.gateway.max_retries [])

  unfoldable pub accept : AppState Limiter Url → Incoming → Task
  unfolding admit
  accept app req =
      admit app req (check_gateway_auth lib.http app.config.gateway.api_key req.uri req.headers)

  -- From the head of the loop to the next wait, or to the end.
  unfoldable pub go :
      Turn Url
      → Job
      → (left : ℕ) → (skip : List ℕ) → AppState Limiter Url
      → Task × AppState Limiter Url
  go turn job zero skip app = give_up turn.now_ms app
  go turn job (suc left) skip app =
      let (selected, pool) =
        select (asking lib app.upstream_base job.req job.est job.parsed turn skip) app.pool in
      after_select job left skip turn.now_ms selected (record app { pool = pool })

  -- From a reply to the head of the loop, or to the end, for the key that replied.
  unfoldable pub receive :
      Job
      → (left : ℕ) → (skip : List ℕ) → (idx now_ms : ℕ) → Option Buffered
      → Upstream Limiter
      → Stats
      → Task × Upstream Limiter × Stats
  receive job left skip idx now_ms none up stats =
      (ready job left (skip ++ idx ∷ []), (on_failed (land up)).0, stats)
  receive job left skip idx now_ms (some buf) up stats =
      if is_rate_limited lib.peek buf
      then (ready job left (skip ++ idx ∷ []), (on_rate_limited now_ms (land up)).0, stats)
      else (let (up', stats', _) = on_served job.est job.parsed (land up) stats in
          (ended (ok (build_response buf)), up', stats'))

  unfoldable pub resume :
      Job
      → (left : ℕ) → (skip : List ℕ) → (idx now_ms : ℕ) → Option Buffered
      → AppState Limiter Url
      → Option (Upstream Limiter)
      → Task × AppState Limiter Url
  resume job left skip idx now_ms reply app none = (ready job left (skip ++ idx ∷ []), app)
  resume job left skip idx now_ms reply app (some up) =
      let (task, up', stats) = receive job left skip idx now_ms reply up app.stats in
      (task, record app { pool = update_key idx (λ _. up') app.pool; stats = stats })
