-- ===== src/Proxy/Examples.antt =====
-- Tests and instances for src/proxy.rs.
use helius.Common.{
  ℕ, zero, suc, String, true, false, Option, none, some, List, [], ◌∷◌, ◌++◌, ◌≡◌, refl, arith, ◌≤◌,
  ◌<◌, All, Any, ◌↔◌, inl, inr, ◌||◌, map, length, string_eq, ◌==◌,
}
use helius.Config.{
  Config, default_persistence, default_upstream_base, default_request_timeout_ms,
  default_max_retries, default_max_body_bytes, default_keepalive_secs, default_costs, default_rps,
}
use helius.Credits.{RpcCall, parse_body, request_cost}
use helius.Ratelimit.Counting.{counting}
use helius.Upstream.{Upstream}
use helius.Proxy.Wire.{
  Header, Http, Uri, Buffered, forwarded_headers, check_gateway_auth, build_response,
  relayed_headers, is_rate_limited, build_upstream_url, preserved, query_pairs, is_hop_by_hop,
  is_gateway_auth_header,
}
use helius.Proxy.Arms.{
  Libraries, AppState, Incoming, Turn, new_state, carry_on, update_key, on_rate_limited, on_served,
  commit_credits,
}
use helius.Proxy.Handler.{
  proxy, handle, relayed, reply_of, authorized, attempts, attempt, with_selected, with_key, asking,
  settle, forward_once, outgoing,
}
use helius.Proxy.Charging.{IsCharged, accounts, proxy-IsCharged}
use helius.Credits.{single}
use helius.Proxy.Outcomes.{IsAtMostOneMore, counted}
use helius.Proxy.Retries.{proxy-IsAtMostOneMore}
use helius.Proxy.Ending.{IsEnded, proxy-IsEnded}
use helius.Proxy.Secrets.{
  IsPassedOn, Keeps, HasQueryPairs, IsSafe, build_upstream_url-pairs, forwarded_headers_iff,
}

-- A URL as its path and the pairs of its query.
abbrev pub Location : Type 0
Location = String × List (String × String)

abbrev pub http : Http Location
http = record {
  to_str = λ b. some "sesame";
  form_parse = λ q. ("api-key", q) ∷ ("page", "2") ∷ [];
  set_path = λ path url. (path, url.1);
  clear = λ url. (url.0, []);
  append_pair = λ k v url. (url.0, url.1 ++ (k, v) ∷ []);
}

abbrev pub libraries : Libraries ℕ Location
libraries = record {
  governor = counting;
  http = http;
  serde = record {
    calls_from_slice = λ body. none;
    call_from_slice = λ body. some (record { method = some "getSlot" });
  };
  peek = λ body. none;
}

abbrev pub config : Config
config = record {
  gateway = record {
    bind = "0.0.0.0:8080";
    api_key = "sesame";
    upstream_base = default_upstream_base;
    request_timeout_ms = default_request_timeout_ms;
    max_retries = default_max_retries;
    max_body_bytes = default_max_body_bytes;
    keepalive_secs = default_keepalive_secs;
  };
  persistence = default_persistence;
  costs = default_costs;
  rps = default_rps;
  upstreams =
      record { name = "a"; api_key = "k1"; credit_cap = 100; enabled = true }
      ∷ record { name = "b"; api_key = "k2"; credit_cap = 100; enabled = true }
      ∷ [];
}

abbrev pub base : Location
base = ("/", [])

abbrev pub state : AppState ℕ Location
state = new_state counting config base

abbrev pub request : Incoming
request = record {
  method = "POST";
  uri = record { path = "/"; query = some "sesame" };
  headers = record { name = "host"; value = 65 ∷ [] } ∷ [];
  body = b'{' ∷ [];
}

abbrev pub answer : ℕ → Buffered
answer status = record { status = status; headers = []; body = [] }

-- The first try is rate-limited, every other one is served.
abbrev pub turns : ℕ → Turn Location
turns zero = record { now_ms = 1_000; clock = λ off. off; send = λ out. some (answer 429) }
turns (suc i) = record { now_ms = 1_200; clock = λ off. off; send = λ out. some (answer 200) }

-- The second key serves what the first one is too busy for, and is charged.
served :
    ((handle libraries turns request state).0 ≡ relayed (answer 200))
    × (map (λ a. a.used) (accounts (handle libraries turns request state).1.pool.upstreams)
        ≡ 0 ∷ 1 ∷ [])
unfolding handle reply_of proxy authorized check_gateway_auth query_pairs new_state attempts
    carry_on attempt with_selected with_key asking settle forward_once outgoing update_key
    on_rate_limited on_served commit_credits build_response relayed_headers forwarded_headers
    is_rate_limited helius.Proxy.Wire.build_upstream_url helius.Pool.select helius.Pool.from_config
    helius.Pool.try_key helius.Pool.skips helius.Upstream.from_config helius.Upstream.has_quota_for
    helius.Upstream.in_cooldown helius.Upstream.try_acquire helius.Upstream.add_credits
    helius.Upstream.trip_cooldown helius.Upstream.note_success helius.Upstream.record_ok
    helius.Upstream.record_rate_limited helius.Ratelimit.build_limiters helius.Ratelimit.insert
    helius.Common.Map.lookup helius.Common.Map.insert helius.Credits.parse_body
    helius.Credits.first_non_ws helius.Credits.single_of helius.Credits.request_cost
    helius.Credits.cost_of helius.Credits.classify helius.Credits.primary_class
    helius.Credits.from_config helius.Credits.default_cost helius.Credits.is_das
    helius.Credits.is_zk helius.Common.Map.insert_all
served = (refl, refl)

proxy-IsCharged_example :
    IsCharged
      (request_cost (parse_body libraries.serde "/" (b'{' ∷ [])) state.costs)
      (proxy libraries turns request state).0
      (accounts state.pool.upstreams)
      (accounts (proxy libraries turns request state).1.pool.upstreams)
unfolding new_state helius.Pool.from_config helius.Upstream.from_config
proxy-IsCharged_example =
    proxy-IsCharged libraries turns request state (omega arith, (omega arith, tt))

proxy-IsEnded_example :
    IsEnded libraries request state turns
      (proxy libraries turns request state).0
      (proxy libraries turns request state).1
      (proxy libraries turns request state).2
proxy-IsEnded_example = proxy-IsEnded libraries request state turns

location_pairs : HasQueryPairs http (λ url. url.1)
location_pairs = record { cleared = λ url. refl; appended = λ k v url. refl }

build_upstream_url-pairs_example :
    let carried = (build_upstream_url http base request.uri "k1").1 in
    (◌≡◌ {A = Option String} (some "sesame") none → carried ≡ ("api-key", "k1") ∷ [])
    × ((q : String)
        → ◌≡◌ {A = Option String} (some "sesame") (some q)
        → (rest : List (String × String)) × Keeps (("api-key", q) ∷ ("page", "2") ∷ []) rest
          × (carried ≡ rest ++ ("api-key", "k1") ∷ []))
    × All (IsSafe "k1") carried
build_upstream_url-pairs_example =
    build_upstream_url-pairs http (λ url. url.1) location_pairs base request.uri "k1"

abbrev auth_header : Header
auth_header = record { name = "Authorization"; value = [] }

forwarded_headers_iff_example :
    Any (λ x. x ≡ auth_header) (forwarded_headers (auth_header ∷ []))
    ↔ (Any (λ x. x ≡ auth_header) (auth_header ∷ []) × IsPassedOn "Authorization")
forwarded_headers_iff_example = forwarded_headers_iff auth_header (auth_header ∷ [])

abbrev refusing : ℕ → Turn Location
refusing i = record { now_ms = 1_000; clock = λ off. off; send = λ out. none }

proxy-IsAtMostOneMore_example :
    IsAtMostOneMore
      (counted state.pool 0)
      (counted (proxy libraries refusing request state).1.pool 0)
proxy-IsAtMostOneMore_example = proxy-IsAtMostOneMore libraries request state 0 refusing
