-- ===== src/Persistence/UnitTests.antt =====
-- The unit tests of src/persistence.rs, as functions into Bool. The token buckets, the clock, the files and
-- the codec of snapshots are arguments; the tests run (Passes) where the codec reads back what it wrote and
-- the temporary file has another path than the snapshot.
mod Passes
use helius.Common.{
  ℕ, String, Bool, true, false, ◌&&◌, ◌==◌, ==_refl, nat_eq, string_eq, Option, none, some, List,
  [], ◌∷◌, ◌≡◌, ◌≢◌, ap, ◌∙◌, arith, get_elem?, modify, map, sum_u64, if◌then◌else◌,
}
use helius.Common.Map.{lookup, insert}
use helius.Config.{UpstreamConfig, default_rps, PersistenceConfig, zero_usage}
use helius.Ratelimit.{Governor}
use helius.Upstream.{
  Upstream, add_credits, record_ok, restore_monthly, restore_lifetime, restore_day_start,
  start_new_day, from_config as upstream_from_config,
}
use helius.Pool.{Pool, from_config, find_by_name}
use helius.Stats.{Stats, new_stats, record_exhausted, MonthlyRecord, total_of}
use helius.Persistence.Snapshot.{
  ReadResult, bytes, not_found, UpstreamSnap, Snapshot, schema_version, Loaded, snapshot, absent,
  unreadable, capture, load, snap_of,
}
use helius.Persistence.Restore.{
  restore_into, restore_loaded, apply_snapshot, apply_monthly, apply_daily, restore_key, used_in,
  find_snap, closing_record,
}
use helius.Persistence.Save.{Disk, put, perform_all, save, read_from}
use helius.Persistence.Crash.{load-save_done}

-- The codec, the paths and the disk that a test finds.
pub record Files : Type 0 where
  pub to_vec : Snapshot → Option (List ℕ)
  pub from_slice : List ℕ → Option Snapshot
  pub parent : Option String
  pub tmp : String
  pub path : String
  pub disk : Disk

unfoldable pub cfg : String → UpstreamConfig
cfg name = record { name = name; api_key = "k"; credit_cap = 1_000_000; enabled = true }

unfoldable pub pcfg : (path : String) → PersistenceConfig
pcfg path = record {
  path = path;
  interval_secs = 10;
  on_snapshot_error = zero_usage;
  daily_retention_days = 90;
}

-- `UpstreamSnap::default()` with a name, and `Snapshot::default()` with a version.
abbrev blank_snap : String → UpstreamSnap
blank_snap name = record {
  name = name;
  credits_used = 0;
  credits_total = 0;
  requests_ok = 0;
  requests_rate_limited = 0;
  requests_error = 0;
  rate_limit_hits = 0;
  day_start_total = 0;
}

abbrev snapshot_of : (epoch_yyyymm : ℕ) → List UpstreamSnap → Snapshot
snapshot_of epoch_yyyymm upstreams = record {
  version = schema_version;
  epoch_yyyymm = epoch_yyyymm;
  saved_at_ms = 0;
  upstreams = upstreams;
  all_exhausted = 0;
  methods = [];
  history = [];
  current_day = 0;
  daily_history = [];
}

abbrev is_value : ℕ → Option ℕ → Bool
is_value n (some m) = m == n
is_value n none = false

abbrev is_snap : (UpstreamSnap → ℕ) → ℕ → Option UpstreamSnap → Bool
is_snap field n (some s) = field s == n
is_snap field n none = false

abbrev is_closed : (month total : ℕ) → List MonthlyRecord → Bool
is_closed month total (r ∷ []) = (r.month == month) && (r.total_credits == total)
is_closed month total [] = false
is_closed month total (r ∷ q ∷ rs) = false

-- What the first test asserts of the snapshot that is loaded.
abbrev has_all_fields : Loaded → Bool
has_all_fields (snapshot s) =
    (s.version == schema_version)
    && (s.epoch_yyyymm == 202606)
    && is_snap (λ u. u.credits_used) 123 (get_elem? s.upstreams 0)
    && is_snap (λ u. u.credits_total) 123 (get_elem? s.upstreams 0)
    && is_snap (λ u. u.requests_ok) 1 (get_elem? s.upstreams 0)
    && (s.all_exhausted == 1)
    && is_value 9 (lookup "getSlot" s.methods)
has_all_fields absent = false
has_all_fields unreadable = false

abbrev is_absent : Loaded → Bool
is_absent (snapshot s) = false
is_absent absent = true
is_absent unreadable = false

module _ {Limiter : Type 0} where
  abbrev is_key : (Upstream Limiter → ℕ) → ℕ → Option (Upstream Limiter) → Bool
  is_key counter n (some u) = counter u == n
  is_key counter n none = false

  -- What the two tests of a restore assert.
  abbrev is_restored : Pool Limiter × Stats → Bool
  is_restored (p, s) =
      is_key (λ u. u.credits_used) 500 (find_by_name "a" p)
      && is_key (λ u. u.credits_total) 1500 (find_by_name "a" p)
      && is_key (λ u. u.requests_ok) 42 (find_by_name "a" p)
      && is_key (λ u. u.credits_used) 7 (find_by_name "b" p)

  abbrev is_rolled : (cur_month : ℕ) → Pool Limiter × Stats → Bool
  is_rolled cur_month (p, s) =
      is_key (λ u. u.credits_used) 0 (find_by_name "a" p)
      && is_key (λ u. u.credits_total) 9000 (find_by_name "a" p)
      && is_key (λ u. u.epoch_yyyymm) cur_month (find_by_name "a" p)
      && is_closed 200001 500 s.history

-- The disk after `save(&path, &snap)`.
abbrev saved : Files → Snapshot → Disk
saved f snap = perform_all (save f.to_vec f.parent f.tmp f.path snap) f.disk

module _ {Limiter : Type 0} (g : Governor Limiter) (f : Files) where
  unfoldable pub pool : List String → Pool Limiter
  pool names = from_config g (map cfg names) default_rps

  -- The snapshot that the first test captures.
  abbrev charged : Snapshot
  charged =
      let p = pool ("a" ∷ "b" ∷ []) in
      let first = modify 0 (λ u. record_ok (add_credits 123 u).0) p.upstreams in
      let p' = record p { upstreams = modify 1 (λ u. (add_credits 456 u).0) first } in
      let stats = (record_exhausted (record new_stats { current_month = 202606 })).0 in
      capture p' (record stats { methods = insert "getSlot" 9 stats.methods }) 999

  unfoldable pub save_then_load_roundtrips_all_fields : Bool
  save_then_load_roundtrips_all_fields =
      has_all_fields (load f.from_slice (read_from (saved f charged) f.path))

  unfoldable pub missing_file_is_none : Bool
  missing_file_is_none = is_absent (load f.from_slice (read_from (put f.path none f.disk) f.path))

  abbrev same_month : (cur_month : ℕ) → Snapshot
  same_month cur_month = snapshot_of cur_month (
      record (blank_snap "a") { credits_used = 500; credits_total = 1500; requests_ok = 42 }
      ∷ record (blank_snap "b") { credits_used = 7 }
      ∷ [])

  abbrev restores : (cur_month cur_day : ℕ) → List String → Snapshot → Pool Limiter × Stats
  restores cur_month cur_day names snap =
      let (p, s, _) =
        restore_into f.from_slice (read_from (saved f snap) f.path) cur_month cur_day (pool names)
          new_stats (pcfg f.path) in
      (p, s)

  unfoldable pub restore_same_month_restores_usage_and_lifetime : (cur_month cur_day : ℕ) → Bool
  restore_same_month_restores_usage_and_lifetime cur_month cur_day =
      is_restored (restores cur_month cur_day ("a" ∷ "b" ∷ []) (same_month cur_month))

  abbrev old_month : Snapshot
  old_month =
      snapshot_of 200001 (record (blank_snap "a") { credits_used = 500; credits_total = 9000 } ∷ [])

  unfoldable pub restore_old_month_keeps_lifetime_and_records_history :
      (cur_month cur_day : ℕ) → Bool
  restore_old_month_keeps_lifetime_and_records_history cur_month cur_day =
      is_rolled cur_month (restores cur_month cur_day ("a" ∷ []) old_month)
