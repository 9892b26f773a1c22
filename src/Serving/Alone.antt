-- ===== src/Serving/Alone.antt =====
-- A request that runs with nothing between its steps is the handler of src/proxy.rs as Proxy.Handler has it.
use helius.Common.{
  ℕ, zero, suc, ◌+◌, ◌<◌, arith, Bool, true, false, List, [], ◌∷◌, ◌++◌, ltb, length, if◌then◌else◌,
}
use helius.Credits.{parse_body, request_cost}
use helius.Metrics.{Event}
use helius.Error.{Result, ok, err, payload_too_large}
use helius.Proxy.{
  Libraries, AppState, Incoming, Turn, Buffered, check_gateway_auth, attempt, attempts, authorized,
  proxy,
}
use helius.Serving.Task.{Job, Task, ready, ended, admit, accept, give_up, go}
use helius.Serving.System.{arrive, turn_task, put_back, step}
use helius.Serving.Passes.{
  Ends, here, turned, Follows-trans, carry_on-Ends, attempt-Follows, alone, finished,
}

module _ {Limiter Url : Type 0} (lib : Libraries Limiter Url) where
  attempts-Ends :
      (job : Job) (turns : ℕ → Turn Url) (left i last : ℕ) (skip : List ℕ)
      (app : AppState Limiter Url)
      → i + left < last
      → Ends lib app.upstream_base job.req turns i last (alone app (ready job left skip)) (
          finished app (
            attempts lib app.upstream_base job.req job.est job.parsed turns left i skip app.pool
              app.stats))
  unfolding attempts
  attempts-Ends job turns zero i last skip app within =
      unfold step put_back turn_task go give_up in (suc i, omega arith, turned here)
  attempts-Ends job turns (suc left) i last skip app within =
      let (j, few, rest) =
        carry_on-Ends lib job left skip turns (suc i) last app
          (attempt lib app.upstream_base job.req job.est job.parsed (turns i) skip app.pool
            app.stats)
          (λ idx.
            attempts lib app.upstream_base job.req job.est job.parsed turns left (suc i)
              (skip ++ idx ∷ []))
          (omega arith)
          (λ idx p t.
            attempts-Ends job turns left (suc i) last (skip ++ idx ∷ [])
              (record app { pool = p; stats = t }) (omega arith)) in
      (j, few, Follows-trans (attempt-Follows lib job left skip turns i app) rest)

  authorized-Ends :
      (turns : ℕ → Turn Url) (req : Incoming) (app : AppState Limiter Url) (auth : Result Unit)
      → let (result, app', _) = authorized lib turns req app auth in
        Ends lib app.upstream_base req turns 0
          (suc app.config.gateway.max_retries)
          (alone app (admit lib app req auth))
          (alone app' (ended result))
  unfolding authorized admit
  authorized-Ends turns req app (err e) = (0, omega arith, here)
  authorized-Ends turns req app (ok _) =
      let parsed = parse_body lib.serde req.uri.path req.body in
      let est = request_cost parsed app.costs in
      let job : Job = record { req = req; parsed = parsed; est = est } in
      let retries = app.config.gateway.max_retries in
      let begun : Bool → Task =
        λ large. if large then ended (err payload_too_large) else ready job retries [] in
      let done : Bool → Result Buffered × AppState Limiter Url × List Event = λ large.
        if large
        then (err payload_too_large, app, [])
        else (let (result, pool, stats, events) =
              attempts lib app.upstream_base req est parsed turns retries 0 [] app.pool app.stats in
            (result, record app { pool = pool; stats = stats }, events)) in
      elim (ltb app.config.gateway.max_body_bytes (length req.body))
        as (λ b.
          Ends lib app.upstream_base req turns 0 (suc retries) (alone app (begun b))
            (alone (done b).1 (ended (done b).0))) [
              | true ↦ (0, omega arith, here)
              | false ↦ attempts-Ends job turns retries 0 (suc retries) [] app (omega arith)
            ]

-- The handler refines the running gateway: in a system without tasks, a request that arrives and then makes
-- its moves, with nothing between them, runs to its end, with the result of `proxy` and the state that
-- `proxy` leaves. Each pass takes the next of the given turns, of which there are at most one more than the
-- retries, and a reply is what this turn sends back for this request as it goes out with a key.
pub proxy-Ends :
    {Limiter Url : Type 0} (lib : Libraries Limiter Url) (turns : ℕ → Turn Url) (req : Incoming)
    (app : AppState Limiter Url)
    → let (result, app', _) = proxy lib turns req app in
      Ends lib app.upstream_base req turns 0
        (suc app.config.gateway.max_retries)
        (step lib (arrive req) (record { app = app; tasks = [] }))
        (alone app' (ended result))
unfolding proxy step accept
proxy-Ends lib turns req app =
    authorized-Ends lib turns req app
      (check_gateway_auth lib.http app.config.gateway.api_key req.uri req.headers)
