-- ===== src/Metrics.antt =====
-- src/metrics.rs: the metric names. The recorder is the metrics crates': what the program does to it is
-- a list of events, which each operation returns in the order in which it records them. A gauge's
-- floating-point value is the number it is converted from.
use helius.Common.{ℕ, String, List, string_eq}

abbrev pub requests_total : String
requests_total = "ninehelius_requests_total"

abbrev pub credits_consumed_total : String
credits_consumed_total = "ninehelius_credits_consumed_total"

abbrev pub credits_remaining : String
credits_remaining = "ninehelius_credits_remaining"

abbrev pub rate_limit_hits_total : String
rate_limit_hits_total = "ninehelius_rate_limit_hits_total"

abbrev pub upstream_errors_total : String
upstream_errors_total = "ninehelius_upstream_errors_total"

abbrev pub inflight : String
inflight = "ninehelius_inflight"

abbrev pub rpc_method_total : String
rpc_method_total = "ninehelius_rpc_method_total"

abbrev pub all_exhausted_total : String
all_exhausted_total = "ninehelius_all_exhausted_total"

abbrev pub request_duration_seconds : String
request_duration_seconds = "ninehelius_request_duration_seconds"

abbrev pub keepalive_total : String
keepalive_total = "ninehelius_keepalive_total"

-- `counter!(name, labels).increment(by)`, `gauge!(name, "upstream" => …)` with `set`, `increment(1.0)`
-- or `decrement(1.0)`, and `histogram!(name).record(…)`, whose value is left out. The labels are the
-- values in the order in which the source writes them.
pub data Event : Type 0 where
  counter : (name : String) (labels : List String) (by : ℕ) → Event
  gauge_set : (name upstream : String) (value : ℕ) → Event
  gauge_inc : (name upstream : String) → Event
  gauge_dec : (name upstream : String) → Event
  histogram : (name : String) → Event
