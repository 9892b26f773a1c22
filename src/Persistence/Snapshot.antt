-- ===== src/Persistence/Snapshot.antt =====
-- `Snapshot`, its capture, and `load` of src/persistence.rs.
use helius.Common.{ℕ, String, Option, none, some, List, map}
use helius.Common.Map.{Map}
use helius.Upstream.{Upstream}
use helius.Pool.{Pool}
use helius.Stats.{MonthlyRecord, DailyRecord, Stats}

abbrev pub schema_version : ℕ
schema_version = 3

pub record UpstreamSnap : Type 0 where
  pub name : String
  pub credits_used : ℕ
  pub credits_total : ℕ
  pub requests_ok : ℕ
  pub requests_rate_limited : ℕ
  pub requests_error : ℕ
  pub rate_limit_hits : ℕ
  pub day_start_total : ℕ

pub record Snapshot : Type 0 where
  pub version : ℕ
  pub epoch_yyyymm : ℕ
  pub saved_at_ms : ℕ
  pub upstreams : List UpstreamSnap
  pub all_exhausted : ℕ
  pub methods : Map String ℕ
  pub history : List MonthlyRecord
  pub current_day : ℕ
  pub daily_history : List DailyRecord

unfoldable pub snap_of : {Limiter : Type 0} → Upstream Limiter → UpstreamSnap
snap_of u = record {
  name = u.name;
  credits_used = u.credits_used;
  credits_total = u.credits_total;
  requests_ok = u.requests_ok;
  requests_rate_limited = u.requests_rate_limited;
  requests_error = u.requests_error;
  rate_limit_hits = u.rate_limit_hits;
  day_start_total = u.day_start_total;
}

unfoldable pub capture : {Limiter : Type 0} → Pool Limiter → Stats → ℕ → Snapshot
capture pool stats now_ms = record {
  version = schema_version;
  epoch_yyyymm = stats.current_month;
  saved_at_ms = now_ms;
  upstreams = map snap_of pool.upstreams;
  all_exhausted = stats.all_exhausted;
  methods = stats.methods;
  history = stats.history;
  current_day = stats.current_day;
  daily_history = stats.daily_history;
}

-- What `std::fs::read` gives: the bytes, no such file, or another error.
pub data ReadResult : Type 0 where
  bytes : List ℕ → ReadResult
  not_found : ReadResult
  failed : ReadResult

-- `anyhow::Result<Option<Snapshot>>`
pub data Loaded : Type 0 where
  snapshot : Snapshot → Loaded
  absent : Loaded
  unreadable : Loaded

-- `serde_json::from_slice` is a parameter.
unfoldable pub load : (List ℕ → Option Snapshot) → ReadResult → Loaded
load from_slice (bytes b) = elim (from_slice b) [ some s ↦ snapshot s | none ↦ unreadable ]
load from_slice not_found = absent
load from_slice failed = unreadable
