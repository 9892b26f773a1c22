-- ===== src/Config/Examples.antt =====
-- Tests and instances for src/config.rs.
use helius.Common.{true, none, some, [], ◌∷◌, ◌≡◌, refl}
use helius.Config.Schema.{Config, UpstreamConfig}
use helius.Config.Defaults.{
  default_persistence, default_costs, default_rps, default_upstream_base,
  default_request_timeout_ms, default_max_retries, default_max_body_bytes, default_keepalive_secs,
}
use helius.Config.Validate.{validate, zero_credit_cap}
use helius.Config.Checks.{IsUsable, validate_iff}

abbrev key : UpstreamConfig
key = record { name = "helius-1"; api_key = "k"; credit_cap = 1_000_000; enabled = true }

abbrev sample : Config
sample = record {
  gateway = record {
    bind = "0.0.0.0:8080";
    api_key = " token ";
    upstream_base = default_upstream_base;
    request_timeout_ms = default_request_timeout_ms;
    max_retries = default_max_retries;
    max_body_bytes = default_max_body_bytes;
    keepalive_secs = default_keepalive_secs;
  };
  persistence = default_persistence;
  costs = default_costs;
  rps = default_rps;
  upstreams = key ∷ [];
}

sample_passes : validate sample ≡ none
unfolding validate
sample_passes = refl

zero_cap_fails :
    validate (record sample { upstreams = key ∷ record key { credit_cap = 0 } ∷ [] })
    ≡ some (zero_credit_cap "helius-1")
unfolding validate
zero_cap_fails = refl

validate_iff_example : IsUsable sample
unfolding validate
validate_iff_example = (validate_iff sample).0 refl
