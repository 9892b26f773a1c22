-- ===== src/Stats/Overlap/Examples.antt =====
-- Tests and instances for a month rollover that is interrupted by charges.
use helius.Common.{ℕ, List, [], ◌∷◌, ◌+◌, ◌≡◌, ◌≢◌, sum_u64, refl, arith}
use helius.Upstream.{from_config, add_credits, reset_monthly}
use helius.Stats.Record.{total_of}
use helius.Stats.Roll.{roll_month_if_changed}
use helius.Stats.Ledger.{closed, used, lifetime}
use helius.Stats.Overlap.{idle, Rolling, Act, begin, advance, charge, run, missed}
use helius.Stats.Examples.{pool, june, june-IsBalanced}
use helius.Stats.Closing.{HasClosed}
use helius.Stats.Overlap.Missed.{run-missed}
use helius.Stats.Overlap.Alone.{rollover, resting, run-rollover}

abbrev first : Rolling ℕ
first = record { stats = june; pool = pool; phase = idle }

-- Key 0 is charged 7 after it was read, and key 1 is charged 5 before it is reset; 30, 12 and 2 are counted.
abbrev acts : List Act
acts =
    charge 0 30
    ∷ begin 202607
    ∷ advance
    ∷ advance
    ∷ charge 0 7
    ∷ charge 1 12
    ∷ advance
    ∷ advance
    ∷ charge 1 5
    ∷ advance
    ∷ charge 0 2
    ∷ advance
    ∷ advance
    ∷ []

missed_twice : missed acts first ≡ 12
unfolding missed run from_config
missed_twice = refl

closed_and_running : closed (run acts first).stats + used (run acts first).pool.upstreams ≡ 44
unfolding run from_config total_of sum_u64 add_credits reset_monthly
closed_and_running = refl

run-missed_example :
    closed (run acts first).stats + used (run acts first).pool.upstreams + missed acts first
    ≡ lifetime (run acts first).pool.upstreams
unfolding run from_config
run-missed_example =
    run-missed acts first
      (tt, (omega arith, (tt, (tt, (tt, (tt, (tt, (tt, (tt, (tt, (tt, (tt, (tt, tt))))))))))))) refl
      june-IsBalanced (omega arith) refl

run-rollover_example :
    let r = run (rollover 202607 pool.upstreams) (resting june pool) in
    (let (stats, pool', _) = roll_month_if_changed pool 202607 june in r ≡ resting stats pool')
    × (june.current_month ≡ 202607 → r ≡ resting june pool)
    × (june.current_month ≢ 202607 → (r.phase ≡ idle) × HasClosed 202607 pool june r.stats r.pool)
run-rollover_example = run-rollover 202607 june pool (omega arith)
