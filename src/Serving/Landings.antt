-- ===== src/Serving/Landings.antt =====
-- What a reply does to the purse of its key: it lands the flight, and charges it where it is served.
use helius.Common.{
  ℕ, Bool, true, false, Option, none, some, List, [], ◌∷◌, ◌++◌, ◌≡◌, refl, arith, not, get_elem?,
  map-modify, set, ◌==◌, nat_eq,
}
use helius.Upstream.{
  Upstream, add_credits, record_ok, note_success, record_rate_limited, trip_cooldown, record_error,
}
use helius.Stats.{Stats}
use helius.Proxy.{
  Libraries, Buffered, on_rate_limited, on_served, on_failed, commit_credits, update_key,
  is_rate_limited,
}
use helius.Keepalive.{on_reply}
use helius.Serving.Task.{Job, ready, waiting, pinging, resting, land, receive, resume, end_ping}
use helius.Serving.System.{System}
use helius.Serving.Ledger.{
  lands, Purse, Flight, Ledger, Post, stay, join, begin, end, reset, pay, unspent,
}
use helius.Serving.Ledger
use helius.Serving.Purses.{flight_of, purse, ledger}
use helius.Serving.Posts.{end-Post, missing-Post}

module _ {Limiter Url : Type 0} (lib : Libraries Limiter Url) where
  -- What a reply does to the purse of its key.
  receive-pays :
      (job : Job) (left : ℕ) (skip : List ℕ) (idx now_ms : ℕ) (reply : Option Buffered)
      (up : Upstream Limiter) (stats : Stats)
      → let (task, up', _) = receive lib job left skip idx now_ms reply up stats in
        (charged : Bool) × (flight_of task ≡ none)
        × (purse up' ≡ pay charged job.est (Ledger.arrive true (purse up)))
  unfolding receive on_failed on_rate_limited on_served commit_credits land add_credits record_ok
      note_success record_rate_limited trip_cooldown record_error
  receive-pays job left skip idx now_ms none up stats = (false, refl, refl)
  receive-pays job left skip idx now_ms (some buf) up stats =
      let limited = is_rate_limited lib.peek buf in (not limited, ground arith, ground arith)

  pub resume-Post :
      (s : System Limiter Url) (n : ℕ) (job : Job) (left : ℕ) (skip : List ℕ) (idx now_ms : ℕ)
      (reply : Option Buffered) (found : Option (Upstream Limiter))
      → get_elem? s.tasks n ≡ some (waiting job left skip idx now_ms)
      → get_elem? s.app.pool.upstreams idx ≡ found
      → let (task, app) = resume lib job left skip idx now_ms reply s.app found in
        Post (ledger s) (ledger (record s { app = app; tasks = set s.tasks n task })) (lands n)
  unfolding resume update_key
  resume-Post s n job left skip idx now_ms reply none at e =
      missing-Post s n (waiting job left skip idx now_ms) (ready job left (skip ++ idx ∷ []))
        (record { idx = idx; est = job.est; is_request = true }) at refl refl e
  resume-Post s n job left skip idx now_ms reply (some up) at e =
      let (task, up', stats) = receive lib job left skip idx now_ms reply up s.app.stats in
      let (charged, after, pays) = receive-pays job left skip idx now_ms reply up s.app.stats in
      end-Post s n (waiting job left skip idx now_ms) task
        (record { idx = idx; est = job.est; is_request = true }) charged
        (record s.app { pool = update_key idx (λ _. up') s.app.pool; stats = stats }) at refl after
        (map-modify purse (λ c. pay charged job.est (Ledger.arrive true c)) s.app.pool.upstreams idx
          up up' e pays)

module _ {Limiter : Type 0} where
  status-pays :
      (cost now_ms : ℕ) (status : Option ℕ) (up : Upstream Limiter)
      → (charged : Bool) × (purse (on_reply cost now_ms status up).0 ≡ pay charged cost (purse up))
  unfolding on_reply add_credits record_rate_limited trip_cooldown
  status-pays cost now_ms none up = (false, refl)
  status-pays cost now_ms (some status) up = (not (status == 429), ground arith)

module _ {Limiter Url : Type 0} where
  pub end_ping-Post :
      (s : System Limiter Url) (n : ℕ) (idx now_ms cost : ℕ) (status : Option ℕ)
      (found : Option (Upstream Limiter))
      → get_elem? s.tasks n ≡ some (pinging idx now_ms cost)
      → get_elem? s.app.pool.upstreams idx ≡ found
      → Post
          (ledger s)
          (ledger (record s {
            app = end_ping idx now_ms cost status s.app found;
            tasks = set s.tasks n resting;
          }))
          (lands n)
  unfolding end_ping update_key
  end_ping-Post s n idx now_ms cost status none at e =
      missing-Post s n (pinging idx now_ms cost) resting
        (record { idx = idx; est = cost; is_request = false }) at refl refl e
  end_ping-Post s n idx now_ms cost status (some up) at e =
      let (charged, pays) = status-pays cost now_ms status up in
      let up' = (on_reply cost now_ms status up).0 in
      end-Post s n (pinging idx now_ms cost) resting
        (record { idx = idx; est = cost; is_request = false }) charged
        (record s.app { pool = update_key idx (λ _. up') s.app.pool }) at refl refl
        (map-modify purse (λ c. pay charged cost c) s.app.pool.upstreams idx up up' e pays)
