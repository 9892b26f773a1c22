-- ===== src/Serving/System.antt =====
-- A running gateway: its state and the tasks that were begun, of which any may take the next step.
use helius.Common.{ℕ, Option, none, some, List, [], ◌∷◌, ◌++◌, get_elem?, set}
use helius.Credits.{cost_of}
use helius.Stats.{roll_month_if_changed, roll_day_if_changed}
use helius.Proxy.{Libraries, AppState, Incoming, Turn, Buffered}
use helius.Serving.Task.{
  Task, ready, waiting, ended, dropped, pinging, resting, accept, go, resume, start_ping, end_ping,
}

pub record System (Limiter Url : Type 0) : Type 0 where
  pub app : AppState Limiter Url
  pub tasks : List Task

-- What happens next: a request arrives, the task at a position takes a turn or has its reply, a pinger is
-- spawned, it pings a key or has the status of its reply, the client of a request hangs up, or one half of the
-- ticker's body runs. The order of the keys is left to the moves, which allows more than the pinger's loop does.
pub data Move (Url : Type 0) : Type 0 where
  arrive : Incoming → Move Url
  turn_of : (n : ℕ) → Turn Url → Move Url
  reply_to : (n : ℕ) → Option Buffered → Move Url
  spawn_pinger : Move Url
  ping : (n idx now_ms : ℕ) → Move Url
  status_to : (n : ℕ) → Option ℕ → Move Url
  hang_up : (n : ℕ) → Move Url
  month : (cur : ℕ) → Move Url
  day : (cur : ℕ) → Move Url

module _ {Limiter Url : Type 0} where
  unfoldable pub ping_task :
      (idx now_ms : ℕ) → Option Task → AppState Limiter Url → Option Task × AppState Limiter Url
  ping_task idx now_ms (some resting) app = (
    some (start_ping (cost_of app.costs "getHealth") idx now_ms (get_elem? app.pool.upstreams idx)),
    app,
  )
  ping_task idx now_ms (some (ready job left skip)) app = (none, app)
  ping_task idx now_ms (some (waiting job left skip key at)) app = (none, app)
  ping_task idx now_ms (some (ended result)) app = (none, app)
  ping_task idx now_ms (some (dropped key)) app = (none, app)
  ping_task idx now_ms (some (pinging key at cost)) app = (none, app)
  ping_task idx now_ms none app = (none, app)

  -- What the status of its reply does to a ping.
  unfoldable pub status_task :
      Option ℕ → Option Task → AppState Limiter Url → Option Task × AppState Limiter Url
  status_task status (some (pinging idx now_ms cost)) app =
      (some resting, end_ping idx now_ms cost status app (get_elem? app.pool.upstreams idx))
  status_task status (some (ready job left skip)) app = (none, app)
  status_task status (some (waiting job left skip idx now_ms)) app = (none, app)
  status_task status (some (ended result)) app = (none, app)
  status_task status (some (dropped idx)) app = (none, app)
  status_task status (some resting) app = (none, app)
  status_task status none app = (none, app)

  -- The client of a request that waits hangs up: the server drops the future, and nothing of `forward_once`
  -- after its wait runs. In the source a request waits nowhere else.
  unfoldable pub hang_up_task :
      Option Task → AppState Limiter Url → Option Task × AppState Limiter Url
  hang_up_task (some (waiting job left skip idx now_ms)) app = (some (dropped idx), app)
  hang_up_task (some (ready job left skip)) app = (none, app)
  hang_up_task (some (ended result)) app = (none, app)
  hang_up_task (some (dropped idx)) app = (none, app)
  hang_up_task (some (pinging idx now_ms cost)) app = (none, app)
  hang_up_task (some resting) app = (none, app)
  hang_up_task none app = (none, app)

  -- Puts a task that has moved back at its position.
  unfoldable pub put_back :
      (n : ℕ) → Option Task × AppState Limiter Url → System Limiter Url → System Limiter Url
  put_back n (some task, app) s = record s { app = app; tasks = set s.tasks n task }
  put_back n (none, app) s = s

module _ {Limiter Url : Type 0} (lib : Libraries Limiter Url) where
  -- What a task does of itself; a task that waits does nothing.
  unfoldable pub turn_task :
      Turn Url → Option Task → AppState Limiter Url → Option Task × AppState Limiter Url
  turn_task turn (some (ready job left skip)) app =
      let (task, app') = go lib turn job left skip app in (some task, app')
  turn_task turn (some (waiting job left skip idx now_ms)) app = (none, app)
  turn_task turn (some (ended result)) app = (none, app)
  turn_task turn (some (dropped idx)) app = (none, app)
  turn_task turn (some (pinging idx now_ms cost)) app = (none, app)
  turn_task turn (some resting) app = (none, app)
  turn_task turn none app = (none, app)

  -- What a reply does; it reaches a request that waits for it and nothing else.
  unfoldable pub reply_task :
      Option Buffered → Option Task → AppState Limiter Url → Option Task × AppState Limiter Url
  reply_task reply (some (waiting job left skip idx now_ms)) app =
      let (task, app') =
        resume lib job left skip idx now_ms reply app (get_elem? app.pool.upstreams idx) in
      (some task, app')
  reply_task reply (some (ready job left skip)) app = (none, app)
  reply_task reply (some (ended result)) app = (none, app)
  reply_task reply (some (dropped idx)) app = (none, app)
  reply_task reply (some (pinging idx now_ms cost)) app = (none, app)
  reply_task reply (some resting) app = (none, app)
  reply_task reply none app = (none, app)

  unfoldable pub step : Move Url → System Limiter Url → System Limiter Url
  step (arrive req) s = record s { tasks = s.tasks ++ accept lib s.app req ∷ [] }
  step (turn_of n turn) s = put_back n (turn_task turn (get_elem? s.tasks n) s.app) s
  step (reply_to n reply) s = put_back n (reply_task reply (get_elem? s.tasks n) s.app) s
  step spawn_pinger s = record s { tasks = s.tasks ++ resting ∷ [] }
  step (ping n idx now_ms) s = put_back n (ping_task idx now_ms (get_elem? s.tasks n) s.app) s
  step (status_to n status) s = put_back n (status_task status (get_elem? s.tasks n) s.app) s
  step (hang_up n) s = put_back n (hang_up_task (get_elem? s.tasks n) s.app) s
  step (month cur) s =
      let (stats, pool, _) = roll_month_if_changed s.app.pool cur s.app.stats in
      record s { app = record s.app { stats = stats; pool = pool } }
  step (day cur) s =
      let retention = s.app.config.persistence.daily_retention_days in
      let (stats, pool) = roll_day_if_changed s.app.pool cur retention s.app.stats in
      record s { app = record s.app { stats = stats; pool = pool } }

-- The systems that moves in any order lead to.
pub data Runs {Limiter Url : Type 0} (lib : Libraries Limiter Url) (s : System Limiter Url)
    : System Limiter Url → Type 0 where
  here : Runs lib s s
  next : {t : System Limiter Url} → Runs lib s t → (m : Move Url) → Runs lib s (step lib m t)

-- A given sequence of moves.
module _ {Limiter Url : Type 0} (lib : Libraries Limiter Url) where
  unfoldable pub run : List (Move Url) → System Limiter Url → System Limiter Url
  run [] s = s
  run (m ∷ ms) s = run ms (step lib m s)
