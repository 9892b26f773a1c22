-- ===== src/Stats/Books.antt =====
-- The operations that change the counters, in any order, keep the books balanced.
use helius.Common.{
  ℕ, ◌+◌, ◌≤◌, ◌<◌, ◌≡◌, ◌≢◌, arith, List, [], ◌∷◌, ◌++◌, map, ◌==◌, nat_eq, nat_beq_iff,
  Bool-cases, inl, inr, ◌⊎◌, All, sum, sum-append, u64_mod, ap, sym, ◌∙◌,
}
use mathlib.Core.List.{map-append}
use helius.Credits.{Parsed}
use helius.Upstream.{Upstream, reset_monthly, start_new_day}
use helius.Pool.{Pool}
use helius.Stats.Record.{MonthlyRecord, capture_month}
use helius.Stats.Closing.{roll_month-same, roll_month-change, roll_day-months}
use helius.Stats.Ledger.{
  used, lifetime, IsBalanced, charge_key, charge_key-sums, reset-sums, day-sums,
  capture_month-total,
}
use helius.Stats.Roll.{
  Stats, record_exhausted, record_methods, roll_month_if_changed, roll_day_if_changed,
}

-- What changes the counters: a charge, the two rollovers, and the tallies.
pub data Op : Type 0 where
  charge : (idx cost : ℕ) → Op
  month : (cur : ℕ) → Op
  day : (cur retention : ℕ) → Op
  exhausted : Op
  tally : Parsed → Op

-- A rollover is called with a month of the calendar, which is never 0.
abbrev pub IsDated : Op → Type 0
IsDated (month cur) = cur ≢ 0
IsDated _ = Unit

-- The credits that operations charge.
abbrev pub charges : List Op → ℕ
charges [] = 0
charges (charge idx cost ∷ ops) = cost + charges ops
charges (_ ∷ ops) = charges ops

module _ {Limiter : Type 0} where
  unfoldable pub step : Op → Stats × Pool Limiter → Stats × Pool Limiter
  unfolding charge_key record_exhausted record_methods
  step (charge idx cost) (s, p) = (s, record p { upstreams = charge_key idx cost p.upstreams })
  step (month cur) (s, p) = let (s', p', _) = roll_month_if_changed p cur s in (s', p')
  step (day cur retention) (s, p) = roll_day_if_changed p cur retention s
  step exhausted (s, p) = ((record_exhausted s).0, p)
  step (tally parsed) (s, p) = ((record_methods parsed s).0, p)

  unfoldable pub run : List Op → Stats × Pool Limiter → Stats × Pool Limiter
  unfolding step
  run [] sp = sp
  run (op ∷ ops) sp = run ops (step op sp)

  step-charge :
      (idx cost : ℕ) (s : Stats) (p : Pool Limiter)
      → IsBalanced s p
      → lifetime p.upstreams + cost < u64_mod
      → IsBalanced s (record p { upstreams = charge_key idx cost p.upstreams })
        × (lifetime (charge_key idx cost p.upstreams) ≤ lifetime p.upstreams + cost)
  step-charge idx cost s p b room =
      elim (charge_key-sums idx cost p.upstreams (omega (arith, b.books)) room) [
        | inl (u, l) ↦ (
          record {
            started = b.started;
            books = omega (arith, b.books, u, l);
            room = omega (arith, l);
          },
          omega (arith, l),
        )
        | inr same ↦
            let kept = ap {B = ℕ} lifetime same in
            let spent = ap {B = ℕ} used same in
            (
              record {
                started = b.started;
                books = omega (arith, b.books, kept, spent);
                room = omega (arith, kept, b.room);
              },
              omega (arith, kept),
            )
      ]

  closes :
      (cur : ℕ) (s : Stats) (p : Pool Limiter)
      → cur ≢ 0
      → IsBalanced s p
      → IsBalanced
          (record s {
            current_month = cur;
            history = s.history ++ capture_month p s.current_month ∷ [];
          })
          (record p { upstreams = map (reset_monthly cur) p.upstreams })
  closes cur s p dated b =
      let reset = reset-sums cur p.upstreams in
      let total = capture_month-total p s.current_month (omega (arith, b.books, b.room)) in
      let added =
        ap sum
          (map-append (λ r. r.total_credits) s.history (capture_month p s.current_month ∷ [])) in
      let summed =
        sum-append (map (λ r. r.total_credits) s.history)
          ((capture_month p s.current_month).total_credits ∷ []) in
      record {
        started = dated;
        books = omega (arith, b.books, reset, total, added, summed);
        room = omega (arith, b.room, reset);
      }

  step-month :
      (cur : ℕ) (s : Stats) (p : Pool Limiter)
      → cur ≢ 0
      → IsBalanced s p
      → let (s', p', _) = roll_month_if_changed p cur s in
        IsBalanced s' p' × (lifetime p'.upstreams ≤ lifetime p.upstreams)
  step-month cur s p dated b = elim (Bool-cases (s.current_month == cur)) [
    | inl same ↦
        rw (roll_month-same cur p s ((nat_beq_iff s.current_month cur).0 same)) (b, omega arith)
    | inr other ↦
        let change = roll_month-change cur p s b.started (λ e. ground arith) in
        rw change (closes cur s p dated b, omega (arith, reset-sums cur p.upstreams))
  ]

  pub day_totals :
      {ups ups' : List (Upstream Limiter)}
      → (ups' ≡ ups) ⊎ (ups' ≡ map start_new_day ups)
      → (used ups' ≡ used ups) × (lifetime ups' ≡ lifetime ups)
  day_totals (inl e) = (ap used e, ap lifetime e)
  day_totals {ups} (inr e) = (ap used e ∙ (day-sums ups).0, ap lifetime e ∙ (day-sums ups).1)

  step-day :
      (cur retention : ℕ) (s : Stats) (p : Pool Limiter)
      → IsBalanced s p
      → let (s', p') = roll_day_if_changed p cur retention s in
        IsBalanced s' p' × (lifetime p'.upstreams ≤ lifetime p.upstreams)
  step-day cur retention s p b =
      let (history, kept, keys) = roll_day-months cur retention p s in
      let closed_same =
        ap {B = ℕ} (λ h. sum (map (λ (r : MonthlyRecord). r.total_credits) h)) history in
      let (spent, ever) = day_totals keys in
      (
        record {
          started = λ z. b.started (sym kept ∙ z);
          books = omega (arith, b.books, closed_same, spent, ever);
          room = omega (arith, b.room, ever);
        },
        omega (arith, ever),
      )

  step-IsBalanced :
      (op : Op) (s : Stats) (p : Pool Limiter)
      → IsDated op
      → IsBalanced s p
      → lifetime p.upstreams + charges (op ∷ []) < u64_mod
      → IsBalanced (step op (s, p)).0 (step op (s, p)).1
        × (lifetime (step op (s, p)).1.upstreams ≤ lifetime p.upstreams + charges (op ∷ []))
  unfolding step
  step-IsBalanced (charge idx cost) s p d b room =
      let (kept, grown) = step-charge idx cost s p b (omega arith) in (kept, omega (arith, grown))
  step-IsBalanced (month cur) s p d b room =
      let (kept, same) = step-month cur s p d b in (kept, omega (arith, same))
  step-IsBalanced (day cur retention) s p d b room =
      let (kept, same) = step-day cur retention s p b in (kept, omega (arith, same))
  step-IsBalanced exhausted s p d b room =
      (record { started = b.started; books = b.books; room = b.room }, omega arith)
  step-IsBalanced (tally parsed) s p d b room =
      (record { started = b.started; books = b.books; room = b.room }, omega arith)

charges-cons : (op : Op) (ops : List Op) → charges (op ∷ ops) ≡ charges (op ∷ []) + charges ops
charges-cons (charge idx cost) ops = omega arith
charges-cons _ ops = omega arith

-- However charges, rollovers and tallies follow one another, the closed months and the running one go
-- on to add up to the lifetime totals of the keys, while those fit into a u64: no credit is lost or
-- counted twice.
pub run-IsBalanced :
    {Limiter : Type 0} (ops : List Op) (s : Stats) (p : Pool Limiter)
    → All IsDated ops
    → IsBalanced s p
    → lifetime p.upstreams + charges ops < u64_mod
    → IsBalanced (run ops (s, p)).0 (run ops (s, p)).1
unfolding run
run-IsBalanced [] s p d b room = b
run-IsBalanced (op ∷ ops) s p d b room =
    let more = charges-cons op ops in
    let (kept, grown) = step-IsBalanced op s p d.0 b (omega (arith, more)) in
    run-IsBalanced ops (step op (s, p)).0 (step op (s, p)).1 d.1 kept (omega (arith, more, grown))
