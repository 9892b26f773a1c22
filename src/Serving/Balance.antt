-- ===== src/Serving/Balance.antt =====
-- The books of a running gateway, modulo 2^64.
use helius.Common.{
  ℕ, Option, none, some, List, [], ◌∷◌, map, ◌≡◌, ◌≢◌, ◌+◌, ◌%◌, ap, sym, ◌∙◌, arith, get_elem?,
  sum, sum-map-append, u64_mod, All, ◌==◌, nat_eq, nat_beq_iff, Bool-cases, inl, inr,
}
use helius.Stats.{MonthlyRecord, roll_month_if_changed, roll_day_if_changed, capture_month}
use helius.Stats.Ledger.{closed, used, lifetime}
use helius.Proxy.{Libraries, AppState}
use helius.Stats.Closing.{roll_month-same, roll_month-change, roll_day-months}
use helius.Stats.Ledger.{reset-sums, capture_month-total_mod}
use helius.Stats.Books.{day_totals}
use helius.Serving.Payments.{
  IsPaid, ping_task-IsPaid, hang_up_task-IsPaid, status_task-IsPaid, turn_task-IsPaid,
  reply_task-IsPaid,
}
use helius.Serving.Task.{Task}
use helius.Serving.System.{
  hang_up, hang_up_task, System, Move, arrive, turn_of, reply_to, spawn_pinger, ping, status_to,
  month, day, ping_task, status_task, turn_task, reply_task, put_back, step, run,
}

-- A rollover is called with a month of the calendar, which is never 0.
abbrev pub IsDated : {Url : Type 0} → Move Url → Type 0
IsDated (month cur) = cur ≢ 0
IsDated (arrive _) = Unit
IsDated (turn_of _ _) = Unit
IsDated (reply_to _ _) = Unit
IsDated spawn_pinger = Unit
IsDated (ping _ _ _) = Unit
IsDated (status_to _ _) = Unit
IsDated (hang_up _) = Unit
IsDated (day _) = Unit

module _ {Limiter Url : Type 0} where
  -- The closed months and the running one add up to the lifetime totals, modulo 2^64, in a process that has
  -- begun to count months.
  pub record IsEven (app : AppState Limiter Url) : Type 0 where
    pub started : app.stats.current_month ≢ 0
    pub books :
        (closed app.stats + used app.pool.upstreams) % u64_mod
        ≡ lifetime app.pool.upstreams % u64_mod

  paid-IsEven : (app app' : AppState Limiter Url) → IsPaid app app' → IsEven app → IsEven app'
  paid-IsEven app app' paid even =
      let same =
        ap {B = ℕ} (λ h. sum (map (λ (r : MonthlyRecord). r.total_credits) h)) paid.history in
      record {
        started = λ z. even.started (sym paid.current ∙ z);
        books = omega (arith, even.books, same, paid.paid.month, paid.paid.ever);
      }

  put_back-IsEven :
      (n : ℕ) (r : Option Task × AppState Limiter Url) (s : System Limiter Url)
      → IsPaid s.app r.1
      → IsEven s.app
      → IsEven (put_back n r s).app
  unfolding put_back
  put_back-IsEven n (some task, app) s paid even = paid-IsEven s.app app paid even
  put_back-IsEven n (none, app) s paid even = even

  month-IsEven :
      (cur : ℕ) (app : AppState Limiter Url)
      → cur ≢ 0
      → IsEven app
      → let (stats, pool, _) = roll_month_if_changed app.pool cur app.stats in
        IsEven (record app { stats = stats; pool = pool })
  month-IsEven cur app dated even = elim (Bool-cases (app.stats.current_month == cur)) [
    | inl same ↦
        rw
          (roll_month-same cur app.pool app.stats
            ((nat_beq_iff app.stats.current_month cur).0 same))
          even
    | inr other ↦
        let change = roll_month-change cur app.pool app.stats even.started (λ e. ground arith) in
        let closing = capture_month app.pool app.stats.current_month in
        let total = capture_month-total_mod app.pool app.stats.current_month in
        let added =
          sum-map-append (λ (r : MonthlyRecord). r.total_credits) app.stats.history closing in
        let reset = reset-sums cur app.pool.upstreams in
        rw change
          (record { started = dated; books = omega (arith, even.books, total, added, reset) })
  ]

  day-IsEven :
      (cur retention : ℕ) (app : AppState Limiter Url)
      → IsEven app
      → let (stats, pool) = roll_day_if_changed app.pool cur retention app.stats in
        IsEven (record app { stats = stats; pool = pool })
  day-IsEven cur retention app even =
      let (history, kept, keys) = roll_day-months cur retention app.pool app.stats in
      let same = ap {B = ℕ} (λ h. sum (map (λ (r : MonthlyRecord). r.total_credits) h)) history in
      let (spent, ever) = day_totals keys in
      record {
        started = λ z. even.started (sym kept ∙ z);
        books = omega (arith, even.books, same, spent, ever);
      }

module _ {Limiter Url : Type 0} (lib : Libraries Limiter Url) where
  step-IsEven :
      (m : Move Url) (s : System Limiter Url) → IsDated m → IsEven s.app → IsEven (step lib m s).app
  unfolding step
  step-IsEven (arrive req) s d even = even
  step-IsEven (turn_of n turn) s d even =
      let task = get_elem? s.tasks n in
      put_back-IsEven n (turn_task lib turn task s.app) s (turn_task-IsPaid lib turn task s.app)
        even
  step-IsEven (reply_to n reply) s d even =
      let task = get_elem? s.tasks n in
      put_back-IsEven n (reply_task lib reply task s.app) s (reply_task-IsPaid lib reply task s.app)
        even
  step-IsEven spawn_pinger s d even = even
  step-IsEven (ping n idx now_ms) s d even =
      let task = get_elem? s.tasks n in
      put_back-IsEven n (ping_task idx now_ms task s.app) s (ping_task-IsPaid idx now_ms task s.app)
        even
  step-IsEven (status_to n status) s d even =
      let task = get_elem? s.tasks n in
      put_back-IsEven n (status_task status task s.app) s (status_task-IsPaid status task s.app)
        even
  step-IsEven (hang_up n) s d even =
      let task = get_elem? s.tasks n in
      put_back-IsEven n (hang_up_task task s.app) s (hang_up_task-IsPaid task s.app) even
  step-IsEven (month cur) s d even = month-IsEven cur s.app d even
  step-IsEven (day cur) s d even =
      day-IsEven cur s.app.config.persistence.daily_retention_days s.app even

-- Whatever requests, hang-ups, pings and rollovers interleave at their waits, in any order, the closed months and the
-- running one go on to add up to the lifetime totals of the keys, modulo 2^64, with no bound on what is charged: the
-- gateway has begun to count months with balanced books, and months are not 0.
pub run-IsEven :
    {Limiter Url : Type 0} (lib : Libraries Limiter Url) (ms : List (Move Url))
    (s : System Limiter Url)
    → All IsDated ms
    → IsEven s.app
    → IsEven (run lib ms s).app
unfolding run
run-IsEven lib [] s d even = even
run-IsEven lib (m ∷ ms) s d even =
    run-IsEven lib ms (step lib m s) d.1 (step-IsEven lib m s d.0 even)
