-- ===== src/Serving/Fixed.antt =====
-- No move changes the configuration.
use helius.Common.{ℕ, zero, suc, Option, none, some, List, ◌≡◌, refl, arith, get_elem?}
use helius.Upstream.{Upstream}
use helius.Pool.{select}
use helius.Proxy.{Libraries, AppState, Turn, Buffered, asking}
use helius.Serving.Task.{
  dropped, Job, Task, ready, waiting, ended, pinging, resting, give_up, depart, after_select,
  end_ping, go, resume,
}
use helius.Serving.System.{
  hang_up, hang_up_task, System, Move, arrive, turn_of, reply_to, spawn_pinger, ping, status_to,
  month, day, ping_task, status_task, turn_task, reply_task, put_back, step,
}

module _ {Limiter Url : Type 0} where
  put_back-config :
      (n : ℕ) (r : Option Task × AppState Limiter Url) (s : System Limiter Url)
      → r.1.config ≡ s.app.config
      → (put_back n r s).app.config ≡ s.app.config
  unfolding put_back
  put_back-config n (some task, app) s same = same
  put_back-config n (none, app) s same = refl

  after_select-config :
      (job : Job) (left : ℕ) (skip : List ℕ) (now_ms : ℕ) (selected : Option ℕ)
      (app : AppState Limiter Url)
      → (after_select job left skip now_ms selected app).1.config ≡ app.config
  unfolding after_select depart give_up
  after_select-config job left skip now_ms none app = refl
  after_select-config job left skip now_ms (some idx) app =
      elim (get_elem? app.pool.upstreams idx)
        as (λ o. (depart job left skip idx now_ms app o).1.config ≡ app.config) [
          | none ↦ refl
          | some up ↦ refl
        ]

  end_ping-config :
      (idx now_ms cost : ℕ) (status : Option ℕ) (app : AppState Limiter Url)
      (found : Option (Upstream Limiter))
      → (end_ping idx now_ms cost status app found).config ≡ app.config
  unfolding end_ping
  end_ping-config idx now_ms cost status app none = refl
  end_ping-config idx now_ms cost status app (some up) = refl

  ping_task-config :
      (idx now_ms : ℕ) (task : Option Task) (app : AppState Limiter Url)
      → (ping_task idx now_ms task app).1.config ≡ app.config
  unfolding ping_task
  ping_task-config idx now_ms task app = ground arith

  hang_up_task-config :
      (task : Option Task) (app : AppState Limiter Url)
      → (hang_up_task task app).1.config ≡ app.config
  unfolding hang_up_task
  hang_up_task-config task app = ground arith

  status_task-config :
      (status : Option ℕ) (task : Option Task) (app : AppState Limiter Url)
      → (status_task status task app).1.config ≡ app.config
  unfolding status_task
  status_task-config status (some (pinging idx now_ms cost)) app =
      end_ping-config idx now_ms cost status app (get_elem? app.pool.upstreams idx)
  status_task-config status (some (ready job left skip)) app = refl
  status_task-config status (some (waiting job left skip idx now_ms)) app = refl
  status_task-config status (some (ended result)) app = refl
  status_task-config status (some (dropped key)) app = refl
  status_task-config status (some resting) app = refl
  status_task-config status none app = refl

module _ {Limiter Url : Type 0} (lib : Libraries Limiter Url) where
  go-config :
      (turn : Turn Url) (job : Job) (left : ℕ) (skip : List ℕ) (app : AppState Limiter Url)
      → (go lib turn job left skip app).1.config ≡ app.config
  unfolding go give_up
  go-config turn job zero skip app = refl
  go-config turn job (suc left) skip app =
      let (selected, pool) =
        select (asking lib app.upstream_base job.req job.est job.parsed turn skip) app.pool in
      after_select-config job left skip turn.now_ms selected (record app { pool = pool })

  resume-config :
      (job : Job) (left : ℕ) (skip : List ℕ) (idx now_ms : ℕ) (reply : Option Buffered)
      (app : AppState Limiter Url) (found : Option (Upstream Limiter))
      → (resume lib job left skip idx now_ms reply app found).1.config ≡ app.config
  unfolding resume
  resume-config job left skip idx now_ms reply app none = refl
  resume-config job left skip idx now_ms reply app (some up) = refl

  turn_task-config :
      (turn : Turn Url) (task : Option Task) (app : AppState Limiter Url)
      → (turn_task lib turn task app).1.config ≡ app.config
  unfolding turn_task
  turn_task-config turn (some (ready job left skip)) app = go-config turn job left skip app
  turn_task-config turn (some (waiting job left skip idx now_ms)) app = refl
  turn_task-config turn (some (ended result)) app = refl
  turn_task-config turn (some (dropped key)) app = refl
  turn_task-config turn (some (pinging idx now_ms cost)) app = refl
  turn_task-config turn (some resting) app = refl
  turn_task-config turn none app = refl

  reply_task-config :
      (reply : Option Buffered) (task : Option Task) (app : AppState Limiter Url)
      → (reply_task lib reply task app).1.config ≡ app.config
  unfolding reply_task
  reply_task-config reply (some (waiting job left skip idx now_ms)) app =
      resume-config job left skip idx now_ms reply app (get_elem? app.pool.upstreams idx)
  reply_task-config reply (some (ready job left skip)) app = refl
  reply_task-config reply (some (ended result)) app = refl
  reply_task-config reply (some (dropped key)) app = refl
  reply_task-config reply (some (pinging idx now_ms cost)) app = refl
  reply_task-config reply (some resting) app = refl
  reply_task-config reply none app = refl

  pub step-config :
      (m : Move Url) (s : System Limiter Url) → (step lib m s).app.config ≡ s.app.config
  unfolding step
  step-config (arrive req) s = refl
  step-config (turn_of n turn) s =
      let task = get_elem? s.tasks n in
      put_back-config n (turn_task lib turn task s.app) s (turn_task-config turn task s.app)
  step-config (reply_to n reply) s =
      let task = get_elem? s.tasks n in
      put_back-config n (reply_task lib reply task s.app) s (reply_task-config reply task s.app)
  step-config spawn_pinger s = refl
  step-config (ping n idx now_ms) s =
      let task = get_elem? s.tasks n in
      put_back-config n (ping_task idx now_ms task s.app) s (ping_task-config idx now_ms task s.app)
  step-config (status_to n status) s =
      let task = get_elem? s.tasks n in
      put_back-config n (status_task status task s.app) s (status_task-config status task s.app)
  step-config (hang_up n) s =
      let task = get_elem? s.tasks n in
      put_back-config n (hang_up_task task s.app) s (hang_up_task-config task s.app)
  step-config (month cur) s = refl
  step-config (day cur) s = refl
