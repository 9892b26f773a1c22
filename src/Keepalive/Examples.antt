-- ===== src/Keepalive/Examples.antt =====
-- Tests and instances for src/keepalive.rs.
use helius.Common.{ℕ, zero, suc, String, true, none, some, List, [], ◌∷◌, ◌++◌, arith}
use helius.Config.{Config, default_persistence, default_costs, default_rps}
use helius.Credits.{cost_of}
use helius.Ratelimit.Counting.{counting}
use helius.Upstream.{Upstream}
use helius.Proxy.{Http, AppState, new_state}
use helius.Keepalive.Ping.{PingTurn, ping_all}
use helius.Keepalive.Effect.{ArePinged, ping_all-ArePinged}

abbrev http : Http (List (String × String))
http = record {
  to_str = λ b. none;
  form_parse = λ q. [];
  set_path = λ path url. url;
  clear = λ url. [];
  append_pair = λ k v url. url ++ (k, v) ∷ [];
}

abbrev config : Config
config = record {
  gateway = record {
    bind = "0.0.0.0:8080";
    api_key = "sesame";
    upstream_base = "https://rpc.example";
    request_timeout_ms = 1_000;
    max_retries = 2;
    max_body_bytes = 1_000;
    keepalive_secs = 30;
  };
  persistence = default_persistence;
  costs = default_costs;
  rps = default_rps;
  upstreams =
      record { name = "a"; api_key = "k1"; credit_cap = 100; enabled = true }
      ∷ record { name = "b"; api_key = "k2"; credit_cap = 100; enabled = true }
      ∷ [];
}

abbrev state : AppState ℕ (List (String × String))
state = new_state counting config []

-- The first key is rate-limited, the second one answers.
abbrev turns : ℕ → PingTurn (List (String × String))
turns zero = record { now_ms = 1_000; post = λ url. some 429 }
turns (suc i) = record { now_ms = 1_000; post = λ url. some 200 }

ping_all-ArePinged_example :
    ArePinged
      (cost_of state.costs "getHealth")
      turns
      0
      state.pool.upstreams
      (ping_all http turns state).0.pool.upstreams
unfolding new_state helius.Pool.from_config helius.Upstream.from_config
ping_all-ArePinged_example = ping_all-ArePinged http turns state (omega arith, (omega arith, tt))
