-- ===== src/Config/Defaults.antt =====
-- The `default_*` and `rps_*` functions of src/config.rs, and the `Default` instances made of them.
use helius.Common.{ℕ, String, Bool, true, [], ◌*◌}
use helius.Config.Schema.{
  PersistenceConfig, CostsConfig, RpsConfig, SnapshotErrorPolicy, zero_usage,
}

abbrev pub default_upstream_base : String
default_upstream_base = "https://mainnet.helius-rpc.com"

abbrev pub default_request_timeout_ms : ℕ
default_request_timeout_ms = 15_000

abbrev pub default_max_retries : ℕ
default_max_retries = 6

abbrev pub default_max_body_bytes : ℕ
default_max_body_bytes = 5 * 1024 * 1024

abbrev pub default_keepalive_secs : ℕ
default_keepalive_secs = 0

abbrev pub default_snapshot_path : String
default_snapshot_path = "state/credits.snapshot.json"

abbrev pub default_interval_secs : ℕ
default_interval_secs = 10

abbrev pub default_daily_retention_days : ℕ
default_daily_retention_days = 90

abbrev pub default_rest_cost : ℕ
default_rest_cost = 100

abbrev pub default_credit_cap : ℕ
default_credit_cap = 1_000_000

abbrev pub default_true : Bool
default_true = true

abbrev pub rps_standard : ℕ
rps_standard = 10

abbrev pub rps_send : ℕ
rps_send = 1

abbrev pub rps_gpa : ℕ
rps_gpa = 5

abbrev pub rps_das : ℕ
rps_das = 2

abbrev pub rps_zk : ℕ
rps_zk = 2

-- SnapshotErrorPolicy's `#[default]`.
abbrev pub default_policy : SnapshotErrorPolicy
default_policy = zero_usage

abbrev pub default_persistence : PersistenceConfig
default_persistence = record {
  path = default_snapshot_path;
  interval_secs = default_interval_secs;
  on_snapshot_error = default_policy;
  daily_retention_days = default_daily_retention_days;
}

abbrev pub default_costs : CostsConfig
default_costs = record { overrides = []; default_rest_cost = default_rest_cost }

abbrev pub default_rps : RpsConfig
default_rps = record {
  standard_rpc = rps_standard;
  send_transaction = rps_send;
  get_program_accounts = rps_gpa;
  das = rps_das;
  zk = rps_zk;
}
