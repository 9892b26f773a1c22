-- ===== src/Serving/Simulation.antt =====
-- Each move of a running gateway is a post of its ledger.
use helius.Common.{
  true, ℕ, Option, none, some, map, ◌≡◌, refl, arith, ◌+◌, ◌<◌, get_elem?, u64_mod, All, inl, inr,
  nat_eq,
}
use helius.Credits.{cost_of}
use helius.Stats.{roll_month_from, roll_day_from, roll_month_if_changed, roll_day_if_changed}
use helius.Proxy.{Libraries, AppState, Incoming, Turn, Buffered}
use helius.Serving.Task.{
  dropped, Task, ready, waiting, ended, pinging, resting, accept, go, start_ping,
}
use helius.Serving.System.{
  hang_up, hang_up_task, System, Move, arrive, turn_of, reply_to, spawn_pinger, ping, status_to,
  month, day, turn_task, reply_task, ping_task, status_task, put_back, step,
}
use helius.Serving.Ledger.{Cause, joins, departs, lands, loses, resets, keeps, Post, stay, reset}
use helius.Serving.Purses.{flight_of, ledger, month-purses, day-purses}
use helius.Serving.Posts.{lost-Post, join-Post, same-Post}
use helius.Serving.Departures.{Departs-Post, start_ping-Departs, go-Departs}
use helius.Serving.Landings.{resume-Post, end_ping-Post}

module _ {Limiter Url : Type 0} (lib : Libraries Limiter Url) where
  accept_lem : (app : AppState Limiter Url) (req : Incoming) → flight_of (accept lib app req) ≡ none
  unfolding accept
  accept_lem app req = ground arith

module _ {Limiter Url : Type 0} where
  month-Post :
      (s : System Limiter Url) (cur : ℕ)
      → let (stats, pool, _) =
          roll_month_from s.app.stats.current_month s.app.pool cur s.app.stats in
        Post
          (ledger s)
          (ledger (record s { app = record s.app { stats = stats; pool = pool } }))
          resets
  month-Post s cur =
      let (stats, pool, _) = roll_month_from s.app.stats.current_month s.app.pool cur s.app.stats in
      elim (month-purses s.app.stats.current_month cur s.app.pool s.app.stats) [
        | inl e ↦ same-Post s (record s.app { stats = stats; pool = pool }) resets tt e
        | inr e ↦ reset (λ i. record { purses = e i; flights = map flight_of s.tasks })
      ]

module _ {Limiter Url : Type 0} (lib : Libraries Limiter Url) where
  turn-Post :
      (s : System Limiter Url) (n : ℕ) (turn : Turn Url) (found : Option Task)
      → All (λ up. up.credit_cap + 1 < u64_mod) s.app.pool.upstreams
      → get_elem? s.tasks n ≡ found
      → Post (ledger s) (ledger (put_back n (turn_task lib turn found s.app) s)) (departs n)
  unfolding put_back turn_task
  turn-Post s n turn none capped at = stay tt refl
  turn-Post s n turn (some (ready job left skip)) capped at =
      Departs-Post s n (ready job left skip) (go lib turn job left skip s.app) at refl
        (go-Departs lib turn job left skip s.app capped)
  turn-Post s n turn (some (waiting job left skip idx now_ms)) capped at = stay tt refl
  turn-Post s n turn (some (ended result)) capped at = stay tt refl
  turn-Post s n turn (some (dropped key)) capped at = stay tt refl
  turn-Post s n turn (some (pinging idx now_ms cost)) capped at = stay tt refl
  turn-Post s n turn (some resting) capped at = stay tt refl

  reply-Post :
      (s : System Limiter Url) (n : ℕ) (reply : Option Buffered) (found : Option Task)
      → get_elem? s.tasks n ≡ found
      → Post (ledger s) (ledger (put_back n (reply_task lib reply found s.app) s)) (lands n)
  unfolding put_back reply_task
  reply-Post s n reply none at = stay tt refl
  reply-Post s n reply (some (ready job left skip)) at = stay tt refl
  reply-Post s n reply (some (waiting job left skip idx now_ms)) at =
      resume-Post lib s n job left skip idx now_ms reply (get_elem? s.app.pool.upstreams idx) at
        refl
  reply-Post s n reply (some (ended result)) at = stay tt refl
  reply-Post s n reply (some (dropped key)) at = stay tt refl
  reply-Post s n reply (some (pinging idx now_ms cost)) at = stay tt refl
  reply-Post s n reply (some resting) at = stay tt refl

  ping-Post :
      (s : System Limiter Url) (n idx now_ms : ℕ) (found : Option Task)
      → All (λ up. up.credit_cap + 1 < u64_mod) s.app.pool.upstreams
      → get_elem? s.tasks n ≡ found
      → Post (ledger s) (ledger (put_back n (ping_task idx now_ms found s.app) s)) (departs n)
  unfolding put_back ping_task
  ping-Post s n idx now_ms none capped at = stay tt refl
  ping-Post s n idx now_ms (some (ready job left skip)) capped at = stay tt refl
  ping-Post s n idx now_ms (some (waiting job left skip key now)) capped at = stay tt refl
  ping-Post s n idx now_ms (some (ended result)) capped at = stay tt refl
  ping-Post s n idx now_ms (some (dropped key)) capped at = stay tt refl
  ping-Post s n idx now_ms (some (pinging key now cost)) capped at = stay tt refl
  ping-Post s n idx now_ms (some resting) capped at =
      let cost = cost_of s.app.costs "getHealth" in
      let key = get_elem? s.app.pool.upstreams idx in
      Departs-Post s n resting (start_ping cost idx now_ms key, s.app) at refl
        (start_ping-Departs cost idx now_ms s.app key capped refl)

  status-Post :
      (s : System Limiter Url) (n : ℕ) (status : Option ℕ) (found : Option Task)
      → get_elem? s.tasks n ≡ found
      → Post (ledger s) (ledger (put_back n (status_task status found s.app) s)) (lands n)
  unfolding put_back status_task
  status-Post s n status none at = stay tt refl
  status-Post s n status (some (ready job left skip)) at = stay tt refl
  status-Post s n status (some (waiting job left skip idx now_ms)) at = stay tt refl
  status-Post s n status (some (ended result)) at = stay tt refl
  status-Post s n status (some (dropped key)) at = stay tt refl
  status-Post s n status (some (pinging idx now_ms cost)) at =
      end_ping-Post s n idx now_ms cost status (get_elem? s.app.pool.upstreams idx) at refl
  status-Post s n status (some resting) at = stay tt refl

  hang_up-Post :
      (s : System Limiter Url) (n : ℕ) (found : Option Task)
      → get_elem? s.tasks n ≡ found
      → Post (ledger s) (ledger (put_back n (hang_up_task found s.app) s)) (loses n)
  unfolding put_back hang_up_task
  hang_up-Post s n none at = stay tt refl
  hang_up-Post s n (some (ready job left skip)) at = stay tt refl
  hang_up-Post s n (some (waiting job left skip idx now_ms)) at =
      lost-Post s n (waiting job left skip idx now_ms) (dropped idx)
        (record { idx = idx; est = job.est; is_request = true }) at refl refl
  hang_up-Post s n (some (ended result)) at = stay tt refl
  hang_up-Post s n (some (dropped key)) at = stay tt refl
  hang_up-Post s n (some (pinging idx now_ms cost)) at = stay tt refl
  hang_up-Post s n (some resting) at = stay tt refl

  -- What a move may post: an arrival and a new pinger join; a turn and a ping may take a flight for their task;
  -- a reply and a status may end that of their task; a hang-up may lose it; a month may begin, and a day
  -- keeps the ledger.
  abbrev pub cause_of : Move Url → Cause
  cause_of (arrive req) = joins
  cause_of (turn_of n turn) = departs n
  cause_of (reply_to n reply) = lands n
  cause_of spawn_pinger = joins
  cause_of (ping n idx now_ms) = departs n
  cause_of (status_to n status) = lands n
  cause_of (hang_up n) = loses n
  cause_of (month cur) = resets
  cause_of (day cur) = keeps

  -- Every move of a running gateway posts to its ledger what the move may post, and nothing else. An
  -- arrival and a new pinger join without a flight. A turn and a ping leave the ledger as it was or let
  -- their own task take a flight to a key that has its estimate left; a reply and a status end the flight
  -- of their own task, charged its estimate or nothing; a hang-up loses that of its own task, which then is
  -- not charged and stays in flight; a look at the month clears what every key has used or nothing; and a
  -- look at the day changes nothing. The caps are below the largest u64.
  pub step-Post :
      (s : System Limiter Url) (m : Move Url)
      → All (λ up. up.credit_cap + 1 < u64_mod) s.app.pool.upstreams
      → Post (ledger s) (ledger (step lib m s)) (cause_of m)
  unfolding step roll_month_if_changed roll_day_if_changed
  step-Post s (arrive req) capped = join-Post s (accept lib s.app req) (accept_lem lib s.app req)
  step-Post s (turn_of n turn) capped = turn-Post s n turn (get_elem? s.tasks n) capped refl
  step-Post s (reply_to n reply) capped = reply-Post s n reply (get_elem? s.tasks n) refl
  step-Post s spawn_pinger capped = join-Post s resting refl
  step-Post s (ping n idx now_ms) capped =
      ping-Post s n idx now_ms (get_elem? s.tasks n) capped refl
  step-Post s (status_to n status) capped = status-Post s n status (get_elem? s.tasks n) refl
  step-Post s (hang_up n) capped = hang_up-Post s n (get_elem? s.tasks n) refl
  step-Post s (month cur) capped = month-Post s cur
  step-Post s (day cur) capped =
      let retention = s.app.config.persistence.daily_retention_days in
      let (stats, pool) =
        roll_day_from s.app.stats.current_day s.app.pool cur retention s.app.stats in
      same-Post s (record s.app { stats = stats; pool = pool }) keeps tt
        (day-purses s.app.stats.current_day cur retention s.app.pool s.app.stats)
