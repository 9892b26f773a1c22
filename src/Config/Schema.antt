-- ===== src/Config/Schema.antt =====
-- The records of src/config.rs. A path and a socket address stay texts.
use helius.Common.{ℕ, String, Bool, List}
use helius.Common.Map.{Map}

pub data SnapshotErrorPolicy : Type 0 where
  zero_usage : SnapshotErrorPolicy
  cap_usage : SnapshotErrorPolicy

pub record GatewayConfig : Type 0 where
  pub bind : String
  pub api_key : String
  pub upstream_base : String
  pub request_timeout_ms : ℕ
  pub max_retries : ℕ
  pub max_body_bytes : ℕ
  pub keepalive_secs : ℕ

pub record PersistenceConfig : Type 0 where
  pub path : String
  pub interval_secs : ℕ
  pub on_snapshot_error : SnapshotErrorPolicy
  pub daily_retention_days : ℕ

pub record CostsConfig : Type 0 where
  pub overrides : Map String ℕ
  pub default_rest_cost : ℕ

pub record RpsConfig : Type 0 where
  pub standard_rpc : ℕ
  pub send_transaction : ℕ
  pub get_program_accounts : ℕ
  pub das : ℕ
  pub zk : ℕ

pub record UpstreamConfig : Type 0 where
  pub name : String
  pub api_key : String
  pub credit_cap : ℕ
  pub enabled : Bool

pub record Config : Type 0 where
  pub gateway : GatewayConfig
  pub persistence : PersistenceConfig
  pub costs : CostsConfig
  pub rps : RpsConfig
  pub upstreams : List UpstreamConfig
