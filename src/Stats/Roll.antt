-- ===== src/Stats/Roll.antt =====
-- `Stats` of src/stats.rs. A rollover loads the period, and later compares and swaps it: `roll_month_from`
-- and `roll_day_from` are the code after the load, for the period that was loaded, so that another
-- caller may have rolled in between.
use helius.Common.{
  ℕ, String, not, List, [], ◌∷◌, ◌++◌, map, ◌==◌, nat_eq, string_eq, if◌then◌else◌, add_u64,
}
use helius.Common.Map.{Map, lookup, insert, unwrap_or}
use helius.Credits.{Parsed, methods}
use helius.Metrics.{
  Event, counter, gauge_set, all_exhausted_total, rpc_method_total, credits_remaining,
}
use helius.Upstream.{Upstream, reset_monthly, start_new_day, remaining_credits}
use helius.Pool.{Pool}
use helius.Stats.Record.{MonthlyRecord, DailyRecord, capture_month, capture_day, trim_front}

pub record Stats : Type 0 where
  pub current_month : ℕ
  pub current_day : ℕ
  pub all_exhausted : ℕ
  pub methods : Map String ℕ
  pub history : List MonthlyRecord
  pub daily_history : List DailyRecord

abbrev pub new_stats : Stats
new_stats = record {
  current_month = 0;
  current_day = 0;
  all_exhausted = 0;
  methods = [];
  history = [];
  daily_history = [];
}

unfoldable pub record_exhausted : Stats → Stats × List Event
record_exhausted s =
    (record s { all_exhausted = add_u64 s.all_exhausted 1 }, counter all_exhausted_total [] 1 ∷ [])

-- `*map.entry(method).or_insert(0) += 1`
unfoldable pub bump : String → Map String ℕ → Map String ℕ
bump method m = insert method (add_u64 (unwrap_or (lookup method m) 0) 1) m

unfoldable pub bump_all : List String → Map String ℕ → Map String ℕ
unfolding bump
bump_all [] m = m
bump_all (method ∷ rest) m = bump_all rest (bump method m)

unfoldable pub record_methods : Parsed → Stats → Stats × List Event
record_methods parsed s = (
  record s { methods = bump_all (methods parsed) s.methods },
  map (λ method. counter rpc_method_total (method ∷ []) 1) (methods parsed),
)

unfoldable pub push_daily : DailyRecord → ℕ → Stats → Stats
unfolding trim_front
push_daily r retention_days s = record s {
  daily_history = trim_front (s.daily_history ++ r ∷ []) retention_days;
}

-- `history_view`, the fields of its JSON object.
pub record HistoryView : Type 0 where
  pub current_month : ℕ
  pub current : MonthlyRecord
  pub history : List MonthlyRecord
  pub current_day : ℕ
  pub today : DailyRecord
  pub daily_history : List DailyRecord

module _ {Limiter : Type 0} where
  -- `set` of the gauge for each key, after its reset.
  unfoldable pub remaining_gauges : List (Upstream Limiter) → List Event
  remaining_gauges ups = map (λ u. gauge_set credits_remaining u.name (remaining_credits u)) ups

  unfoldable pub roll_month_from :
      (prev : ℕ) → Pool Limiter → ℕ → Stats → Stats × Pool Limiter × List Event
  roll_month_from prev pool cur s =
      if prev == cur
      then (s, pool, [])
      else if not (s.current_month == prev)
      then (s, pool, [])
      else (let history' =
            if not (prev == 0) then s.history ++ capture_month pool prev ∷ [] else s.history in
          let ups = map (reset_monthly cur) pool.upstreams in
          (
            record s { current_month = cur; history = history' },
            record pool { upstreams = ups },
            remaining_gauges ups,
          ))

  unfoldable pub roll_month_if_changed :
      Pool Limiter → ℕ → Stats → Stats × Pool Limiter × List Event
  unfolding roll_month_from
  roll_month_if_changed pool cur s = roll_month_from s.current_month pool cur s

  unfoldable pub roll_day_from :
      (prev : ℕ) → Pool Limiter → (cur retention_days : ℕ) → Stats → Stats × Pool Limiter
  roll_day_from prev pool cur retention_days s =
      if prev == cur
      then (s, pool)
      else if not (s.current_day == prev)
      then (s, pool)
      else (let s' = record s { current_day = cur } in
          (
            (if not (prev == 0) then push_daily (capture_day pool prev) retention_days s' else s'),
            record pool { upstreams = map start_new_day pool.upstreams },
          ))

  unfoldable pub roll_day_if_changed :
      Pool Limiter → (cur retention_days : ℕ) → Stats → Stats × Pool Limiter
  unfolding roll_day_from
  roll_day_if_changed pool cur retention_days s =
      roll_day_from s.current_day pool cur retention_days s

  unfoldable pub history_view : Pool Limiter → Stats → HistoryView
  history_view pool s = record {
    current_month = s.current_month;
    current = capture_month pool s.current_month;
    history = s.history;
    current_day = s.current_day;
    today = capture_day pool s.current_day;
    daily_history = s.daily_history;
  }
