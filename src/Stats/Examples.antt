-- ===== src/Stats/Examples.antt =====
-- Tests and instances for src/stats.rs.
use helius.Common.{ℕ, true, List, [], ◌∷◌, ◌++◌, ◌≡◌, ◌≢◌, refl, arith, ◌≤◌, ◌<◌, length}
use helius.Config.{UpstreamConfig, default_rps}
use helius.Ratelimit.Counting.{counting}
use helius.Upstream.{Upstream, from_config}
use helius.Pool.{Pool}
use helius.Stats.Record.{DailyRecord, trim_front}
use helius.Stats.Roll.{Stats, new_stats, roll_month_from, roll_month_if_changed, push_daily}
use helius.Stats.Retention.{trim_front_lem, push_daily_lem}
use helius.Stats.Closing.{HasClosed, roll_month_from_once, roll_month_if_changed_lem}
use helius.Stats.Ledger.{IsBalanced}

abbrev pub key : UpstreamConfig
key = record { name = "a"; api_key = "k"; credit_cap = 1_000_000; enabled = true }

abbrev pub fresh : Upstream ℕ
fresh = from_config counting key default_rps

abbrev pub pool : Pool ℕ
pool = record { upstreams = fresh ∷ fresh ∷ []; cursor = 0 }

abbrev pub june : Stats
june = record new_stats { current_month = 202606; current_day = 20260630 }

abbrev closed_day : DailyRecord
closed_day = record { day = 20260630; total_credits = 42; upstreams = [] }

abbrev days : List ℕ
days = 1 ∷ 2 ∷ 3 ∷ 4 ∷ 5 ∷ []

trims : trim_front days 3 ≡ 3 ∷ 4 ∷ 5 ∷ []
unfolding trim_front
trims = refl

pub june-IsBalanced : IsBalanced june pool
unfolding from_config
june-IsBalanced = record { started = omega arith; books = omega arith; room = omega arith }

roll_month_from_once_example :
    let (won, rolled, _) = roll_month_from 202606 pool 202607 june in
    HasClosed 202607 pool june won rolled
    × (roll_month_from 202606 pool 202607 won ≡ (won, pool, []))
roll_month_from_once_example =
    roll_month_from_once 202606 202607 202607 pool pool june refl (omega arith) (omega arith)

roll_month_if_changed_lem_example :
    let (s', p', events) = roll_month_if_changed pool 202607 june in
    (june.current_month ≡ 202607 → (s' ≡ june) × (p' ≡ pool) × (events ≡ []))
    × (june.current_month ≢ 202607 → HasClosed 202607 pool june s' p')
roll_month_if_changed_lem_example = roll_month_if_changed_lem 202607 pool june (omega arith)

push_daily_lem_example :
    ((kept : List DailyRecord) × ((push_daily closed_day 90 june).daily_history
        ≡ kept ++ closed_day ∷ []))
    × (0 < 90 → length (push_daily closed_day 90 june).daily_history ≤ 90)
push_daily_lem_example = push_daily_lem closed_day 90 june

trim_front_lem_example :
    ((old : List ℕ) × (days ≡ old ++ trim_front days 3))
    × (0 < 3 → length (trim_front days 3) ≡ 3)
    × (◌≡◌ {A = ℕ} 3 0 → trim_front days 3 ≡ days)
trim_front_lem_example = trim_front_lem days 3
