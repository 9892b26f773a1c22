-- ===== src/Serving/Payments.antt =====
-- What the steps of requests and pings do to the books of the gateway, modulo 2^64.
use helius.Common.{
  ℕ, zero, suc, Option, none, some, List, ◌≡◌, refl, arith, get_elem?, if◌then◌else◌, ◌==◌, nat_eq,
}
use helius.Upstream.{
  Upstream, add_credits, trip_cooldown, note_success, record_ok, record_rate_limited, record_error,
}
use helius.Pool.{select}
use helius.Stats.{Stats, record_exhausted, record_methods}
use helius.Proxy.{
  Libraries, AppState, Turn, Buffered, asking, update_key, exhausted, on_served, on_rate_limited,
  on_failed, commit_credits, is_rate_limited,
}
use helius.Keepalive.{on_reply}
use helius.Serving.Paid.{HasPaid, HavePaid, modify-HavePaid, select-HavePaid}
use helius.Serving.Task.{
  dropped, Job, Task, ready, waiting, ended, pinging, resting, give_up, depart, after_select,
  end_ping, go, resume, receive, take_off, land,
}
use helius.Serving.System.{hang_up_task, ping_task, status_task, turn_task, reply_task}

module _ {Limiter Url : Type 0} where
  -- What a step of a request or a ping does to the books: one key is charged, maybe nothing, and the months stay.
  pub record IsPaid (app app' : AppState Limiter Url) : Type 0 where
    pub cost : ℕ
    pub paid : HavePaid cost app.pool.upstreams app'.pool.upstreams
    pub history : app'.stats.history ≡ app.stats.history
    pub current : app'.stats.current_month ≡ app.stats.current_month

  pub same-IsPaid : (app : AppState Limiter Url) → IsPaid app app
  same-IsPaid app = record {
    cost = 0;
    paid = record { month = omega arith; ever = omega arith };
    history = refl;
    current = refl;
  }

  -- A key was charged, and the statistics had nothing but tallies.
  put-IsPaid :
      (cost idx : ℕ) (app : AppState Limiter Url) (up up' : Upstream Limiter) (stats : Stats)
      → get_elem? app.pool.upstreams idx ≡ some up
      → HasPaid cost up up'
      → stats.history ≡ app.stats.history
      → stats.current_month ≡ app.stats.current_month
      → IsPaid app (record app { pool = update_key idx (λ _. up') app.pool; stats = stats })
  unfolding update_key
  put-IsPaid cost idx app up up' stats found paid history current = record {
    cost = cost;
    paid = modify-HavePaid cost idx app.pool.upstreams up up' found paid;
    history = history;
    current = current;
  }

  give_up-IsPaid : (now_ms : ℕ) (app : AppState Limiter Url) → IsPaid app (give_up now_ms app).1
  unfolding give_up exhausted record_exhausted
  give_up-IsPaid now_ms app = record {
    cost = 0;
    paid = record { month = omega arith; ever = omega arith };
    history = refl;
    current = refl;
  }

  depart-IsPaid :
      (job : Job) (left : ℕ) (skip : List ℕ) (idx now_ms : ℕ) (app : AppState Limiter Url)
      (found : Option (Upstream Limiter))
      → get_elem? app.pool.upstreams idx ≡ found
      → IsPaid app (depart job left skip idx now_ms app found).1
  unfolding depart take_off
  depart-IsPaid job left skip idx now_ms app none e = same-IsPaid app
  depart-IsPaid job left skip idx now_ms app (some up) e =
      put-IsPaid 0 idx app up (take_off up) app.stats e
        (record { month = omega arith; ever = omega arith }) refl refl

  after_select-IsPaid :
      (job : Job) (left : ℕ) (skip : List ℕ) (now_ms : ℕ) (selected : Option ℕ)
      (app : AppState Limiter Url)
      → IsPaid app (after_select job left skip now_ms selected app).1
  unfolding after_select
  after_select-IsPaid job left skip now_ms none app = give_up-IsPaid now_ms app
  after_select-IsPaid job left skip now_ms (some idx) app =
      depart-IsPaid job left skip idx now_ms app (get_elem? app.pool.upstreams idx) refl

-- What the status of a ping's reply charges.
charge_of_reply : (cost : ℕ) → Option ℕ → ℕ
charge_of_reply cost none = 0
charge_of_reply cost (some status) = if status == 429 then 0 else cost

module _ {Limiter : Type 0} where
  on_reply-HasPaid :
      (cost now_ms : ℕ) (status : Option ℕ) (up : Upstream Limiter)
      → HasPaid (charge_of_reply cost status) up (on_reply cost now_ms status up).0
  unfolding on_reply charge_of_reply add_credits trip_cooldown record_rate_limited
  on_reply-HasPaid cost now_ms none up = record { month = omega arith; ever = omega arith }
  on_reply-HasPaid cost now_ms (some code) up = record { month = ground arith; ever = ground arith }

module _ {Limiter Url : Type 0} where
  end_ping-IsPaid :
      (idx now_ms cost : ℕ) (status : Option ℕ) (app : AppState Limiter Url)
      (found : Option (Upstream Limiter))
      → get_elem? app.pool.upstreams idx ≡ found
      → IsPaid app (end_ping idx now_ms cost status app found)
  unfolding end_ping
  end_ping-IsPaid idx now_ms cost status app none e = same-IsPaid app
  end_ping-IsPaid idx now_ms cost status app (some up) e =
      put-IsPaid (charge_of_reply cost status) idx app up (on_reply cost now_ms status up).0
        app.stats e (on_reply-HasPaid cost now_ms status up) refl refl

  pub ping_task-IsPaid :
      (idx now_ms : ℕ) (task : Option Task) (app : AppState Limiter Url)
      → IsPaid app (ping_task idx now_ms task app).1
  unfolding ping_task
  ping_task-IsPaid idx now_ms (some resting) app = same-IsPaid app
  ping_task-IsPaid idx now_ms (some (ready job left skip)) app = same-IsPaid app
  ping_task-IsPaid idx now_ms (some (waiting job left skip key at)) app = same-IsPaid app
  ping_task-IsPaid idx now_ms (some (ended result)) app = same-IsPaid app
  ping_task-IsPaid idx now_ms (some (dropped key)) app = same-IsPaid app
  ping_task-IsPaid idx now_ms (some (pinging key at cost)) app = same-IsPaid app
  ping_task-IsPaid idx now_ms none app = same-IsPaid app

  pub hang_up_task-IsPaid :
      (task : Option Task) (app : AppState Limiter Url) → IsPaid app (hang_up_task task app).1
  unfolding hang_up_task
  hang_up_task-IsPaid (some resting) app = same-IsPaid app
  hang_up_task-IsPaid (some (ready job left skip)) app = same-IsPaid app
  hang_up_task-IsPaid (some (waiting job left skip key at)) app = same-IsPaid app
  hang_up_task-IsPaid (some (ended result)) app = same-IsPaid app
  hang_up_task-IsPaid (some (dropped key)) app = same-IsPaid app
  hang_up_task-IsPaid (some (pinging key at cost)) app = same-IsPaid app
  hang_up_task-IsPaid none app = same-IsPaid app

  pub status_task-IsPaid :
      (status : Option ℕ) (task : Option Task) (app : AppState Limiter Url)
      → IsPaid app (status_task status task app).1
  unfolding status_task
  status_task-IsPaid status (some (pinging idx now_ms cost)) app =
      end_ping-IsPaid idx now_ms cost status app (get_elem? app.pool.upstreams idx) refl
  status_task-IsPaid status (some (ready job left skip)) app = same-IsPaid app
  status_task-IsPaid status (some (waiting job left skip idx now_ms)) app = same-IsPaid app
  status_task-IsPaid status (some (ended result)) app = same-IsPaid app
  status_task-IsPaid status (some (dropped key)) app = same-IsPaid app
  status_task-IsPaid status (some resting) app = same-IsPaid app
  status_task-IsPaid status none app = same-IsPaid app

module _ {Limiter Url : Type 0} (lib : Libraries Limiter Url) where
  go-IsPaid :
      (turn : Turn Url) (job : Job) (left : ℕ) (skip : List ℕ) (app : AppState Limiter Url)
      → IsPaid app (go lib turn job left skip app).1
  unfolding go
  go-IsPaid turn job zero skip app = give_up-IsPaid turn.now_ms app
  go-IsPaid turn job (suc left) skip app =
      let q = asking lib app.upstream_base job.req job.est job.parsed turn skip in
      let (selected, pool) = select q app.pool in
      let asked = select-HavePaid q app.pool in
      let after =
        after_select-IsPaid job left skip turn.now_ms selected (record app { pool = pool }) in
      record {
        cost = after.cost;
        paid = record {
          month = omega (arith, after.paid.month, asked.month);
          ever = omega (arith, after.paid.ever, asked.ever);
        };
        history = after.history;
        current = after.current;
      }

  -- What a reply charges.
  charge_of : (est : ℕ) → Option Buffered → ℕ
  charge_of est none = 0
  charge_of est (some buf) = if is_rate_limited lib.peek buf then 0 else est

  receive-HasPaid :
      (job : Job) (left : ℕ) (skip : List ℕ) (idx now_ms : ℕ) (reply : Option Buffered)
      (up : Upstream Limiter) (stats : Stats)
      → let (_, up', stats') = receive lib job left skip idx now_ms reply up stats in
        HasPaid (charge_of job.est reply) up up'
        × (stats'.history ≡ stats.history)
        × (stats'.current_month ≡ stats.current_month)
  unfolding receive charge_of land on_failed on_rate_limited on_served add_credits commit_credits
      trip_cooldown note_success record_ok record_rate_limited record_error record_methods
  receive-HasPaid job left skip idx now_ms none up stats =
      (record { month = omega arith; ever = omega arith }, refl, refl)
  receive-HasPaid job left skip idx now_ms (some buf) up stats =
      (record { month = ground arith; ever = ground arith }, ground arith, ground arith)

  resume-IsPaid :
      (job : Job) (left : ℕ) (skip : List ℕ) (idx now_ms : ℕ) (reply : Option Buffered)
      (app : AppState Limiter Url) (found : Option (Upstream Limiter))
      → get_elem? app.pool.upstreams idx ≡ found
      → IsPaid app (resume lib job left skip idx now_ms reply app found).1
  unfolding resume
  resume-IsPaid job left skip idx now_ms reply app none e = same-IsPaid app
  resume-IsPaid job left skip idx now_ms reply app (some up) e =
      let (_, up', stats) = receive lib job left skip idx now_ms reply up app.stats in
      let (paid, history, current) = receive-HasPaid job left skip idx now_ms reply up app.stats in
      put-IsPaid (charge_of job.est reply) idx app up up' stats e paid history current

  pub turn_task-IsPaid :
      (turn : Turn Url) (task : Option Task) (app : AppState Limiter Url)
      → IsPaid app (turn_task lib turn task app).1
  unfolding turn_task
  turn_task-IsPaid turn (some (ready job left skip)) app = go-IsPaid turn job left skip app
  turn_task-IsPaid turn (some (waiting job left skip idx now_ms)) app = same-IsPaid app
  turn_task-IsPaid turn (some (ended result)) app = same-IsPaid app
  turn_task-IsPaid turn (some (dropped key)) app = same-IsPaid app
  turn_task-IsPaid turn (some (pinging idx now_ms cost)) app = same-IsPaid app
  turn_task-IsPaid turn (some resting) app = same-IsPaid app
  turn_task-IsPaid turn none app = same-IsPaid app

  pub reply_task-IsPaid :
      (reply : Option Buffered) (task : Option Task) (app : AppState Limiter Url)
      → IsPaid app (reply_task lib reply task app).1
  unfolding reply_task
  reply_task-IsPaid reply (some (waiting job left skip idx now_ms)) app =
      resume-IsPaid job left skip idx now_ms reply app (get_elem? app.pool.upstreams idx) refl
  reply_task-IsPaid reply (some (ready job left skip)) app = same-IsPaid app
  reply_task-IsPaid reply (some (ended result)) app = same-IsPaid app
  reply_task-IsPaid reply (some (dropped key)) app = same-IsPaid app
  reply_task-IsPaid reply (some (pinging idx now_ms cost)) app = same-IsPaid app
  reply_task-IsPaid reply (some resting) app = same-IsPaid app
  reply_task-IsPaid reply none app = same-IsPaid app
