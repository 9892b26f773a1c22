-- ===== src/Serving/Examples.antt =====
-- Tests and instances for the running gateway.
use helius.Common.{
  ℕ, zero, suc, String, Option, none, some, List, [], ◌∷◌, ◌++◌, ◌≡◌, ◌≢◌, refl, arith, ◌≤◌, ◌<◌,
  ◌+◌, ◌*◌, ◌%◌, u32_mod, ◌⊎◌, All, length, get_elem?, map, true,
}
use helius.Config.{
  Config, default_persistence, default_upstream_base, default_request_timeout_ms,
  default_max_body_bytes, default_keepalive_secs, default_costs, default_rps,
}
use helius.Ratelimit.Counting.{counting}
use helius.Upstream.{Upstream}
use helius.Proxy.{Http, Buffered, Libraries, AppState, Incoming, Turn, new_state, proxy}
use helius.Serving.Task.{
  ended, accept, admit, go, after_select, depart, resume, receive, take_off, land,
}
use helius.Serving.System.{
  hang_up, hang_up_task, System, arrive, turn_of, reply_to, month, step, run, turn_task, reply_task,
  put_back,
}
use helius.Serving.Ledger.{Post, departs}
use helius.Serving.Weights.{total, cost_at, request_at}
use helius.Serving.Purses.{ledger}
use helius.Serving.Simulation.{step-Post}
use helius.Serving.Reached.{Reach, here, next, flights, Reach-within}
use helius.Serving.Passes.{Ends, alone}
use helius.Serving.Alone.{proxy-Ends}
use helius.Serving.Balance.{IsEven, run-IsEven}
use helius.Serving.Ending.{IsOver, IsUnderWay, served, arrive-ends}

abbrev Location : Type 0
Location = String × List (String × String)

abbrev http : Http Location
http = record {
  to_str = λ b. some "sesame";
  form_parse = λ q. ("api-key", q) ∷ [];
  set_path = λ path url. (path, url.1);
  clear = λ url. (url.0, []);
  append_pair = λ k v url. (url.0, url.1 ++ (k, v) ∷ []);
}

abbrev libraries : Libraries ℕ Location
libraries = record {
  governor = counting;
  http = http;
  serde = record {
    calls_from_slice = λ body. none;
    call_from_slice = λ body. some (record { method = some "getSlot" });
  };
  peek = λ body. none;
}

-- One key, with one credit.
abbrev config : Config
config = record {
  gateway = record {
    bind = "0.0.0.0:8080";
    api_key = "sesame";
    upstream_base = default_upstream_base;
    request_timeout_ms = default_request_timeout_ms;
    max_retries = 2;
    max_body_bytes = default_max_body_bytes;
    keepalive_secs = default_keepalive_secs;
  };
  persistence = default_persistence;
  costs = default_costs;
  rps = default_rps;
  upstreams = record { name = "a"; api_key = "k1"; credit_cap = 1; enabled = true } ∷ [];
}

abbrev start : System ℕ Location
start = record { app = new_state counting config ("/", []); tasks = [] }

abbrev request : Incoming
request = record {
  method = "POST";
  uri = record { path = "/"; query = some "sesame" };
  headers = [];
  body = b'{' ∷ [];
}

abbrev answer : Option Buffered
answer = some (record { status = 200; headers = []; body = [] })

abbrev turn : Turn Location
turn = record { now_ms = 1_000; clock = λ off. off; send = λ out. answer }

-- Two requests that are both on their way before either is served.
abbrev one_begun : System ℕ Location
one_begun = step libraries (arrive request) start

abbrev both_begun : System ℕ Location
both_begun = step libraries (arrive request) one_begun

abbrev one_away : System ℕ Location
one_away = step libraries (turn_of 0 turn) both_begun

abbrev both_away : System ℕ Location
both_away = step libraries (turn_of 1 turn) one_away

abbrev one_served : System ℕ Location
one_served = step libraries (reply_to 0 answer) both_away

abbrev both_served : System ℕ Location
both_served = step libraries (reply_to 1 answer) one_served

-- Both are charged, which takes the key one credit past its cap.
overshoots : map (λ up. up.credits_used) both_served.app.pool.upstreams ≡ 2 ∷ []
unfolding step new_state accept admit turn_task reply_task put_back go after_select depart resume
    receive take_off land helius.Proxy.asking helius.Proxy.check_gateway_auth
    helius.Proxy.update_key helius.Proxy.on_served helius.Proxy.commit_credits
    helius.Proxy.build_response helius.Proxy.relayed_headers helius.Proxy.is_rate_limited
    helius.Pool.select helius.Pool.from_config helius.Pool.try_key helius.Pool.skips
    helius.Upstream.from_config helius.Upstream.has_quota_for helius.Upstream.in_cooldown
    helius.Upstream.try_acquire helius.Upstream.add_credits helius.Upstream.note_success
    helius.Upstream.record_ok helius.Ratelimit.build_limiters helius.Ratelimit.insert
    helius.Common.Map.lookup helius.Common.Map.insert helius.Credits.parse_body
    helius.Credits.first_non_ws helius.Credits.single_of helius.Credits.request_cost
    helius.Credits.cost_of helius.Credits.classify helius.Credits.primary_class
    helius.Credits.from_config helius.Credits.default_cost helius.Credits.is_das
    helius.Credits.is_zk helius.Common.Map.insert_all helius.Proxy.query_pairs
overshoots = refl

-- A client that hangs up leaves its request in flight, which keeps no credit.
hung_up :
    map (λ up. up.in_flight) (step libraries (hang_up 0) both_away).app.pool.upstreams ≡ 2 ∷ []
unfolding step hang_up_task new_state accept admit turn_task reply_task put_back go after_select
    depart resume receive take_off land helius.Proxy.asking helius.Proxy.check_gateway_auth
    helius.Proxy.update_key helius.Proxy.on_served helius.Proxy.commit_credits
    helius.Proxy.build_response helius.Proxy.relayed_headers helius.Proxy.is_rate_limited
    helius.Pool.select helius.Pool.from_config helius.Pool.try_key helius.Pool.skips
    helius.Upstream.from_config helius.Upstream.has_quota_for helius.Upstream.in_cooldown
    helius.Upstream.try_acquire helius.Upstream.add_credits helius.Upstream.note_success
    helius.Upstream.record_ok helius.Ratelimit.build_limiters helius.Ratelimit.insert
    helius.Common.Map.lookup helius.Common.Map.insert helius.Credits.parse_body
    helius.Credits.first_non_ws helius.Credits.single_of helius.Credits.request_cost
    helius.Credits.cost_of helius.Credits.classify helius.Credits.primary_class
    helius.Credits.from_config helius.Credits.default_cost helius.Credits.is_das
    helius.Credits.is_zk helius.Common.Map.insert_all helius.Proxy.query_pairs
hung_up = refl

-- At each time there are at most two flights, of one credit each.
both_served-Reach : Reach libraries 1 1 start both_served
unfolding step new_state accept admit turn_task reply_task put_back go after_select depart resume
    receive take_off land helius.Proxy.asking helius.Proxy.check_gateway_auth
    helius.Proxy.update_key helius.Proxy.on_served helius.Proxy.commit_credits
    helius.Proxy.build_response helius.Proxy.relayed_headers helius.Proxy.is_rate_limited
    helius.Pool.select helius.Pool.from_config helius.Pool.try_key helius.Pool.skips
    helius.Upstream.from_config helius.Upstream.has_quota_for helius.Upstream.in_cooldown
    helius.Upstream.try_acquire helius.Upstream.add_credits helius.Upstream.note_success
    helius.Upstream.record_ok helius.Ratelimit.build_limiters helius.Ratelimit.insert
    helius.Common.Map.lookup helius.Common.Map.insert helius.Credits.parse_body
    helius.Credits.first_non_ws helius.Credits.single_of helius.Credits.request_cost
    helius.Credits.cost_of helius.Credits.classify helius.Credits.primary_class
    helius.Credits.from_config helius.Credits.default_cost helius.Credits.is_das
    helius.Credits.is_zk helius.Common.Map.insert_all helius.Proxy.query_pairs
both_served-Reach =
    next
      (next
        (next
          (next
            (next (next here (arrive request) (omega arith, (omega arith, tt))) (arrive request)
              (omega arith, (omega arith, (omega arith, tt))))
            (turn_of 0 turn) (omega arith, (omega arith, (omega arith, tt))))
          (turn_of 1 turn) (omega arith, (omega arith, (omega arith, tt))))
        (reply_to 0 answer) (omega arith, (omega arith, (omega arith, tt))))
      (reply_to 1 answer) (omega arith, (omega arith, (omega arith, tt)))

-- The key when both have been served.
found : (up : Upstream ℕ) × (get_elem? both_served.app.pool.upstreams 0 ≡ some up)
unfolding step new_state accept admit turn_task reply_task put_back go after_select depart resume
    receive take_off land helius.Proxy.asking helius.Proxy.check_gateway_auth
    helius.Proxy.update_key helius.Proxy.on_served helius.Proxy.commit_credits
    helius.Proxy.build_response helius.Proxy.relayed_headers helius.Proxy.is_rate_limited
    helius.Pool.select helius.Pool.from_config helius.Pool.try_key helius.Pool.skips
    helius.Upstream.from_config helius.Upstream.has_quota_for helius.Upstream.in_cooldown
    helius.Upstream.try_acquire helius.Upstream.add_credits helius.Upstream.note_success
    helius.Upstream.record_ok helius.Ratelimit.build_limiters helius.Ratelimit.insert
    helius.Common.Map.lookup helius.Common.Map.insert helius.Credits.parse_body
    helius.Credits.first_non_ws helius.Credits.single_of helius.Credits.request_cost
    helius.Credits.cost_of helius.Credits.classify helius.Credits.primary_class
    helius.Credits.from_config helius.Credits.default_cost helius.Credits.is_das
    helius.Credits.is_zk helius.Common.Map.insert_all helius.Proxy.query_pairs
found = (_, refl)

Reach-within_example :
    (found.0.credits_used + total (cost_at 0) (flights both_served) ≤ found.0.credit_cap + 1 * 1)
    × (found.0.in_flight ≡ total (request_at 0) (flights both_served) % u32_mod)
unfolding new_state helius.Pool.from_config helius.Upstream.from_config
Reach-within_example =
    Reach-within libraries 1 1 start both_served 0 found.0 refl
      ((omega arith, refl, omega arith), tt) both_served-Reach found.1

step-Post_example : Post (ledger both_begun) (ledger one_away) (departs 0)
unfolding step new_state helius.Pool.from_config helius.Upstream.from_config
step-Post_example = step-Post libraries both_begun (turn_of 0 turn) (omega arith, tt)

proxy-Ends_example :
    let (result, app, _) = proxy libraries (λ i. turn) request start.app in
    Ends libraries start.app.upstream_base request
      (λ i. turn)
      0
      (suc start.app.config.gateway.max_retries)
      (step libraries (arrive request) start)
      (alone app (ended result))
proxy-Ends_example = proxy-Ends libraries (λ i. turn) request start.app

arrive-ends_example :
    let ms = arrive request ∷ turn_of 0 turn ∷ turn_of 1 turn ∷ reply_to 0 answer ∷ [] in
    let task = get_elem? (run libraries ms one_begun).tasks 0 in
    (served libraries 0 ms one_begun ≤ 5)
    × (IsOver task ⊎ (IsUnderWay task × (served libraries 0 ms one_begun < 5)))
unfolding new_state
arrive-ends_example =
    arrive-ends libraries start request
      (arrive request ∷ turn_of 0 turn ∷ turn_of 1 turn ∷ reply_to 0 answer ∷ [])

-- The month changes while the first request waits for its reply.
abbrev dated : System ℕ Location
dated = record start {
  app = record start.app { stats = record start.app.stats { current_month = 202606 } };
}

run-IsEven_example :
    let ms = arrive request ∷ turn_of 0 turn ∷ month 202607 ∷ reply_to 0 answer ∷ [] in
    IsEven (run libraries ms dated).app
unfolding new_state helius.Pool.from_config helius.Upstream.from_config
run-IsEven_example =
    run-IsEven libraries (arrive request ∷ turn_of 0 turn ∷ month 202607 ∷ reply_to 0 answer ∷ [])
      dated (tt, (tt, (omega arith, (tt, tt))))
      (record { started = omega arith; books = omega arith })
