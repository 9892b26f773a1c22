-- ===== src/Serving/Purses.antt =====
-- The ledger of a running gateway, and what selection and the rollovers do to its purses.
use helius.Common.{
  ℕ, zero, suc, true, false, Option, none, some, List, [], ◌∷◌, map, ◌≡◌, refl, ap, sym, subst, ◌∙◌,
  arith, ◌+◌, ◌<◌, ◌⊎◌, get_elem?, u64_mod, All, inl, inr, Bool-cases, ◌==◌, nat_eq,
}
use mathlib.Core.Option.{some-injective}
use helius.Upstream.{Upstream, reset_monthly, start_new_day}
use helius.Pool.{Pool, Request, select}
use helius.Pool.Frame.{stripped}
use helius.Pool.Choice.{select-stripped}
use helius.Stats.{Stats, roll_month_from, roll_day_from}
use helius.Proxy.{AppState}
use helius.Serving.Task.{Task, ready, waiting, ended, dropped, pinging, resting}
use helius.Serving.System.{System}
use helius.Serving.Ledger.{Purse, Flight, Ledger, unspent}

abbrev pub flight_of : Task → Option Flight
flight_of (ready job left skip) = none
flight_of (waiting job left skip idx now_ms) =
    some (record { idx = idx; est = job.est; is_request = true })
flight_of (ended result) = none
flight_of (dropped idx) = some (record { idx = idx; est = 0; is_request = true })
flight_of (pinging idx now_ms cost) = some (record { idx = idx; est = cost; is_request = false })
flight_of resting = none

module _ {Limiter : Type 0} where
  abbrev pub purse : Upstream Limiter → Purse
  purse up = record { cap = up.credit_cap; used = up.credits_used; in_flight = up.in_flight }

  abbrev pub purses : List (Upstream Limiter) → List Purse
  purses = map purse

  purses-stripped : (ups : List (Upstream Limiter)) → purses (stripped ups) ≡ purses ups
  purses-stripped [] = refl
  purses-stripped (u ∷ ups) = ap (λ t. purse u ∷ t) (purses-stripped ups)

  pub purses-select :
      (q : Request Limiter) (p : Pool Limiter)
      → purses (select q p).1.upstreams ≡ purses p.upstreams
  purses-select q p =
      sym (purses-stripped (select q p).1.upstreams)
      ∙ ap purses (select-stripped q p).0
      ∙ purses-stripped p.upstreams

  purses-reset :
      (cur : ℕ) (ups : List (Upstream Limiter))
      → purses (map (reset_monthly cur) ups) ≡ map unspent (purses ups)
  unfolding reset_monthly
  purses-reset cur [] = refl
  purses-reset cur (u ∷ ups) = ap (λ t. unspent (purse u) ∷ t) (purses-reset cur ups)

  purses-day : (ups : List (Upstream Limiter)) → purses (map start_new_day ups) ≡ purses ups
  unfolding start_new_day
  purses-day [] = refl
  purses-day (u ∷ ups) = ap (λ t. purse u ∷ t) (purses-day ups)

  pub caps_at :
      (ups : List (Upstream Limiter)) (i : ℕ) (c : Purse)
      → All (λ up. up.credit_cap + 1 < u64_mod) ups
      → get_elem? (purses ups) i ≡ some c
      → c.cap + 1 < u64_mod
  caps_at [] i c capped h = absurd (ground arith)
  caps_at (u ∷ ups) zero c capped h =
      subst (λ d. d.cap + 1 < u64_mod) (some-injective (purse u) c h) capped.0
  caps_at (u ∷ ups) (suc i) c capped h = caps_at ups i c capped.1 h

module _ {Limiter : Type 0} where
  pub month-purses :
      (prev cur : ℕ) (pool : Pool Limiter) (s : Stats)
      → let (_, pool', _) = roll_month_from prev pool cur s in
        (purses pool'.upstreams ≡ purses pool.upstreams)
        ⊎ (purses pool'.upstreams ≡ map unspent (purses pool.upstreams))
  unfolding roll_month_from
  month-purses prev cur pool s = elim (Bool-cases (prev == cur)) [
    | inl same ↦ inl (rw same refl)
    | inr changed ↦ elim (Bool-cases (s.current_month == prev)) [
      | inl won ↦ inr (rw (changed, won) (purses-reset cur pool.upstreams))
      | inr lost ↦ inl (rw (changed, lost) refl)
    ]
  ]

  pub day-purses :
      (prev cur retention : ℕ) (pool : Pool Limiter) (s : Stats)
      → purses (roll_day_from prev pool cur retention s).1.upstreams ≡ purses pool.upstreams
  unfolding roll_day_from
  day-purses prev cur retention pool s = elim (Bool-cases (prev == cur)) [
    | inl same ↦ rw same refl
    | inr changed ↦ elim (Bool-cases (s.current_day == prev)) [
      | inl won ↦ rw (changed, won) (purses-day pool.upstreams)
      | inr lost ↦ rw (changed, lost) refl
    ]
  ]

module _ {Limiter Url : Type 0} where
  abbrev pub ledger : System Limiter Url → Ledger
  ledger s = record { purses = purses s.app.pool.upstreams; flights = map flight_of s.tasks }

  abbrev pub app_purses : AppState Limiter Url → List Purse
  app_purses app = purses app.pool.upstreams
