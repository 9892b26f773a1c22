-- ===== src/Stats/Overlap.antt =====
-- `Stats::roll_month_if_changed` of src/stats.rs cut at every access to state that other threads share: the load of
-- the month, its compare-and-swap, the read of each key's counter, the push into the history and the reset of each
-- key. A charge of any key may come between any two of them. The gauges that follow a reset are left aside.
use helius.Common.{
  ℕ, suc, not, Option, none, some, List, [], ◌∷◌, ◌++◌, ◌+◌, ◌*◌, ◌==◌, nat_eq, ltb, leb, ◌&&◌, ◌≢◌,
  if◌then◌else◌, length, get_elem?, modify,
}
use helius.Upstream.{Upstream, reset_monthly}
use helius.Pool.{Pool}
use helius.Stats.Record.{UsagePoint, MonthlyRecord, total_of}
use helius.Stats.Roll.{Stats}
use helius.Stats.Ledger.{charge_key}
pub mod Parts
pub mod Swap
pub mod Owed
pub mod Missed
pub mod Alone
mod Examples

-- Where the ticker stands in the rollover: outside it, after the load, among the reads of the keys with the points
-- of those that were read, or among the resets before the key at an index.
pub data Phase : Type 0 where
  idle : Phase
  loaded : (prev cur : ℕ) → Phase
  reading : (prev cur : ℕ) → (points : List UsagePoint) → Phase
  resetting : (cur i : ℕ) → Phase

pub record Rolling (Limiter : Type 0) : Type 0 where
  pub stats : Stats
  pub pool : Pool Limiter
  pub phase : Phase

-- The ticker calls the rollover with a month, the rollover takes its next step, or a key is charged.
pub data Act : Type 0 where
  begin : (cur : ℕ) → Act
  advance : Act
  charge : (idx cost : ℕ) → Act

module _ {Limiter : Type 0} where
  -- The next key of `usage_points`; after the last one the record is pushed.
  unfoldable pub read_key :
      (prev cur : ℕ)
      → List UsagePoint
      → Option (Upstream Limiter)
      → Rolling Limiter
      → Rolling Limiter
  read_key prev cur points (some up) r =
      let point : UsagePoint = record { name = up.name; credits_used = up.credits_used } in
      record r { phase = reading prev cur (points ++ point ∷ []) }
  read_key prev cur points none r =
      let closing : MonthlyRecord = record {
        month = prev;
        total_credits = total_of points;
        upstreams = points;
      } in
      record r {
        stats = record r.stats { history = r.stats.history ++ closing ∷ [] };
        phase = resetting cur 0;
      }

  unfoldable pub reset_key :
      (cur i : ℕ) → Option (Upstream Limiter) → Rolling Limiter → Rolling Limiter
  reset_key cur i (some up) r = record r {
    pool = record r.pool { upstreams = modify i (reset_monthly cur) r.pool.upstreams };
    phase = resetting cur (suc i);
  }
  reset_key cur i none r = record r { phase = idle }

  -- The early return, the compare-and-swap, and whether there is a month to close.
  unfoldable pub swap_month : (prev cur : ℕ) → Rolling Limiter → Rolling Limiter
  swap_month prev cur r =
      if prev == cur
      then record r { phase = idle }
      else if not (r.stats.current_month == prev)
      then record r { phase = idle }
      else record r {
        stats = record r.stats { current_month = cur };
        phase = if not (prev == 0) then reading prev cur [] else resetting cur 0;
      }

  unfoldable pub advance_from : Phase → Rolling Limiter → Rolling Limiter
  unfolding swap_month read_key reset_key
  advance_from idle r = r
  advance_from (loaded prev cur) r = swap_month prev cur r
  advance_from (reading prev cur points) r =
      read_key prev cur points (get_elem? r.pool.upstreams (length points)) r
  advance_from (resetting cur i) r = reset_key cur i (get_elem? r.pool.upstreams i) r

  -- There is one ticker, so a rollover begins only outside another.
  unfoldable pub begin_from : (cur : ℕ) → Phase → Rolling Limiter → Rolling Limiter
  begin_from cur idle r = record r { phase = loaded r.stats.current_month cur }
  begin_from cur (loaded _ _) r = r
  begin_from cur (reading _ _ _) r = r
  begin_from cur (resetting _ _) r = r

  unfoldable pub step : Act → Rolling Limiter → Rolling Limiter
  unfolding advance_from begin_from charge_key
  step (begin cur) r = begin_from cur r.phase r
  step advance r = advance_from r.phase r
  step (charge idx cost) r = record r {
    pool = record r.pool { upstreams = charge_key idx cost r.pool.upstreams };
  }

  unfoldable pub run : List Act → Rolling Limiter → Rolling Limiter
  unfolding step
  run [] r = r
  run (a ∷ acts) r = run acts (step a r)

  -- What a charge adds to the counters: nothing where there is no such key.
  abbrev pub charged : (idx cost : ℕ) → List (Upstream Limiter) → ℕ
  charged idx cost ups = if ltb idx (length ups) then cost else 0

  -- The credits of a charge that reaches a key whose counter was read for the closing month and is still to be reset.
  abbrev pub missed_in : Phase → (idx cost : ℕ) → List (Upstream Limiter) → ℕ
  missed_in idle idx cost ups = 0
  missed_in (loaded _ _) idx cost ups = 0
  missed_in (reading _ _ points) idx cost ups =
      if ltb idx (length points) then charged idx cost ups else 0
  missed_in (resetting _ i) idx cost ups = if leb i idx then charged idx cost ups else 0

  abbrev pub missed_by : Act → Rolling Limiter → ℕ
  missed_by (begin _) r = 0
  missed_by advance r = 0
  missed_by (charge idx cost) r = missed_in r.phase idx cost r.pool.upstreams

  -- The same for the charges of a sequence.
  unfoldable pub missed : List Act → Rolling Limiter → ℕ
  unfolding step
  missed [] r = 0
  missed (a ∷ acts) r = missed_by a r + missed acts (step a r)

-- The credits that a sequence charges, whether the keys are there or not.
abbrev pub costs : List Act → ℕ
costs [] = 0
costs (begin _ ∷ acts) = costs acts
costs (advance ∷ acts) = costs acts
costs (charge _ cost ∷ acts) = cost + costs acts

-- A rollover is called with a month of the calendar, which is never 0.
abbrev pub IsDated : Act → Type 0
IsDated (begin cur) = cur ≢ 0
IsDated advance = Unit
IsDated (charge _ _) = Unit
