-- ===== src/Serving/Names.antt =====
-- No move changes the names of the keys.
use helius.Common.{ℕ, zero, suc, String, Option, none, some, List, ◌≡◌, refl, ◌∙◌, arith, get_elem?}
use helius.Upstream.{
  Upstream, reset_monthly, start_new_day, add_credits, trip_cooldown, note_success, record_ok,
  record_rate_limited, record_error,
}
use helius.Pool.{Pool, select}
use helius.Pool.Names.{names, names-modify, names-map, select-names}
use helius.Stats.{Stats, roll_month_if_changed, roll_day_if_changed}
use helius.Proxy.{
  Libraries, AppState, Turn, Buffered, asking, update_key, on_served, on_rate_limited, on_failed,
  commit_credits,
}
use helius.Keepalive.{on_reply}
use helius.Serving.Task.{
  dropped, Job, Task, ready, waiting, ended, pinging, resting, give_up, depart, after_select,
  end_ping, go, resume, receive, take_off, land,
}
use helius.Serving.System.{
  hang_up, hang_up_task, System, Move, arrive, turn_of, reply_to, spawn_pinger, ping, status_to,
  month, day, ping_task, status_task, turn_task, reply_task, put_back, step,
}

module _ {Limiter : Type 0} where
  names-roll_month :
      (cur : ℕ) (p : Pool Limiter) (s : Stats)
      → names (roll_month_if_changed p cur s).1.upstreams ≡ names p.upstreams
  unfolding roll_month_if_changed reset_monthly
  names-roll_month cur p s = ground (arith, names-map (reset_monthly cur) p.upstreams (λ u. refl))

  names-roll_day :
      (cur retention : ℕ) (p : Pool Limiter) (s : Stats)
      → names (roll_day_if_changed p cur retention s).1.upstreams ≡ names p.upstreams
  unfolding roll_day_if_changed start_new_day
  names-roll_day cur retention p s = ground (arith, names-map start_new_day p.upstreams (λ u. refl))

  on_reply-name :
      (cost now_ms : ℕ) (status : Option ℕ) (up : Upstream Limiter)
      → (on_reply cost now_ms status up).0.name ≡ up.name
  unfolding on_reply add_credits commit_credits trip_cooldown note_success record_ok
      record_rate_limited record_error
  on_reply-name cost now_ms none up = ground arith
  on_reply-name cost now_ms (some code) up = ground arith

module _ {Limiter Url : Type 0} where
  abbrev pub app_names : AppState Limiter Url → List String
  app_names app = names app.pool.upstreams

  put_back-names :
      (n : ℕ) (r : Option Task × AppState Limiter Url) (s : System Limiter Url)
      → app_names r.1 ≡ app_names s.app
      → app_names (put_back n r s).app ≡ app_names s.app
  unfolding put_back
  put_back-names n (some task, app) s same = same
  put_back-names n (none, app) s same = refl

  depart-names :
      (job : Job) (left : ℕ) (skip : List ℕ) (idx now_ms : ℕ) (app : AppState Limiter Url)
      (found : Option (Upstream Limiter))
      → get_elem? app.pool.upstreams idx ≡ found
      → app_names (depart job left skip idx now_ms app found).1 ≡ app_names app
  unfolding depart update_key take_off
  depart-names job left skip idx now_ms app none e = refl
  depart-names job left skip idx now_ms app (some up) e =
      names-modify app.pool.upstreams idx up (take_off up) e refl

  after_select-names :
      (job : Job) (left : ℕ) (skip : List ℕ) (now_ms : ℕ) (selected : Option ℕ)
      (app : AppState Limiter Url)
      → app_names (after_select job left skip now_ms selected app).1 ≡ app_names app
  unfolding after_select give_up
  after_select-names job left skip now_ms none app = refl
  after_select-names job left skip now_ms (some idx) app =
      depart-names job left skip idx now_ms app (get_elem? app.pool.upstreams idx) refl

  end_ping-names :
      (idx now_ms cost : ℕ) (status : Option ℕ) (app : AppState Limiter Url)
      (found : Option (Upstream Limiter))
      → get_elem? app.pool.upstreams idx ≡ found
      → app_names (end_ping idx now_ms cost status app found) ≡ app_names app
  unfolding end_ping update_key
  end_ping-names idx now_ms cost status app none e = refl
  end_ping-names idx now_ms cost status app (some up) e =
      names-modify app.pool.upstreams idx up (on_reply cost now_ms status up).0 e
        (on_reply-name cost now_ms status up)

  ping_task-names :
      (idx now_ms : ℕ) (task : Option Task) (app : AppState Limiter Url)
      → app_names (ping_task idx now_ms task app).1 ≡ app_names app
  unfolding ping_task
  ping_task-names idx now_ms task app = ground arith

  hang_up_task-names :
      (task : Option Task) (app : AppState Limiter Url)
      → app_names (hang_up_task task app).1 ≡ app_names app
  unfolding hang_up_task
  hang_up_task-names task app = ground arith

  status_task-names :
      (status : Option ℕ) (task : Option Task) (app : AppState Limiter Url)
      → app_names (status_task status task app).1 ≡ app_names app
  unfolding status_task
  status_task-names status (some (pinging idx now_ms cost)) app =
      end_ping-names idx now_ms cost status app (get_elem? app.pool.upstreams idx) refl
  status_task-names status (some (ready job left skip)) app = refl
  status_task-names status (some (waiting job left skip idx now_ms)) app = refl
  status_task-names status (some (ended result)) app = refl
  status_task-names status (some (dropped key)) app = refl
  status_task-names status (some resting) app = refl
  status_task-names status none app = refl

module _ {Limiter Url : Type 0} (lib : Libraries Limiter Url) where
  go-names :
      (turn : Turn Url) (job : Job) (left : ℕ) (skip : List ℕ) (app : AppState Limiter Url)
      → app_names (go lib turn job left skip app).1 ≡ app_names app
  unfolding go give_up
  go-names turn job zero skip app = refl
  go-names turn job (suc left) skip app =
      let q = asking lib app.upstream_base job.req job.est job.parsed turn skip in
      let (selected, pool) = select q app.pool in
      after_select-names job left skip turn.now_ms selected (record app { pool = pool })
      ∙ select-names q app.pool

  receive-name :
      (job : Job) (left : ℕ) (skip : List ℕ) (idx now_ms : ℕ) (reply : Option Buffered)
      (up : Upstream Limiter) (stats : Stats)
      → (receive lib job left skip idx now_ms reply up stats).1.name ≡ up.name
  unfolding receive land on_failed on_rate_limited on_served add_credits commit_credits
      trip_cooldown note_success record_ok record_rate_limited record_error
  receive-name job left skip idx now_ms none up stats = ground arith
  receive-name job left skip idx now_ms (some buf) up stats = ground arith

  resume-names :
      (job : Job) (left : ℕ) (skip : List ℕ) (idx now_ms : ℕ) (reply : Option Buffered)
      (app : AppState Limiter Url) (found : Option (Upstream Limiter))
      → get_elem? app.pool.upstreams idx ≡ found
      → app_names (resume lib job left skip idx now_ms reply app found).1 ≡ app_names app
  unfolding resume update_key
  resume-names job left skip idx now_ms reply app none e = refl
  resume-names job left skip idx now_ms reply app (some up) e =
      names-modify app.pool.upstreams idx up
        (receive lib job left skip idx now_ms reply up app.stats).1 e
        (receive-name job left skip idx now_ms reply up app.stats)

  turn_task-names :
      (turn : Turn Url) (task : Option Task) (app : AppState Limiter Url)
      → app_names (turn_task lib turn task app).1 ≡ app_names app
  unfolding turn_task
  turn_task-names turn (some (ready job left skip)) app = go-names turn job left skip app
  turn_task-names turn (some (waiting job left skip idx now_ms)) app = refl
  turn_task-names turn (some (ended result)) app = refl
  turn_task-names turn (some (dropped key)) app = refl
  turn_task-names turn (some (pinging idx now_ms cost)) app = refl
  turn_task-names turn (some resting) app = refl
  turn_task-names turn none app = refl

  reply_task-names :
      (reply : Option Buffered) (task : Option Task) (app : AppState Limiter Url)
      → app_names (reply_task lib reply task app).1 ≡ app_names app
  unfolding reply_task
  reply_task-names reply (some (waiting job left skip idx now_ms)) app =
      resume-names job left skip idx now_ms reply app (get_elem? app.pool.upstreams idx) refl
  reply_task-names reply (some (ready job left skip)) app = refl
  reply_task-names reply (some (ended result)) app = refl
  reply_task-names reply (some (dropped key)) app = refl
  reply_task-names reply (some (pinging idx now_ms cost)) app = refl
  reply_task-names reply (some resting) app = refl
  reply_task-names reply none app = refl

  pub step-names :
      (m : Move Url) (s : System Limiter Url) → app_names (step lib m s).app ≡ app_names s.app
  unfolding step
  step-names (arrive req) s = refl
  step-names (turn_of n turn) s =
      let task = get_elem? s.tasks n in
      put_back-names n (turn_task lib turn task s.app) s (turn_task-names turn task s.app)
  step-names (reply_to n reply) s =
      let task = get_elem? s.tasks n in
      put_back-names n (reply_task lib reply task s.app) s (reply_task-names reply task s.app)
  step-names spawn_pinger s = refl
  step-names (ping n idx now_ms) s =
      let task = get_elem? s.tasks n in
      put_back-names n (ping_task idx now_ms task s.app) s (ping_task-names idx now_ms task s.app)
  step-names (status_to n status) s =
      let task = get_elem? s.tasks n in
      put_back-names n (status_task status task s.app) s (status_task-names status task s.app)
  step-names (hang_up n) s =
      let task = get_elem? s.tasks n in
      put_back-names n (hang_up_task task s.app) s (hang_up_task-names task s.app)
  step-names (month cur) s = names-roll_month cur s.app.pool s.app.stats
  step-names (day cur) s =
      names-roll_day cur s.app.config.persistence.daily_retention_days s.app.pool s.app.stats
