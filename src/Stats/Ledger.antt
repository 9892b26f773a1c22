-- ===== src/Stats/Ledger.antt =====
-- The books balance: every credit that was ever charged is in one closed month or in the running one.
use helius.Common.{
  ℕ, zero, suc, ◌+◌, ◌<◌, ◌≡◌, ◌≢◌, refl, arith, List, [], ◌∷◌, map, nat_eq, inl, inr, ◌⊎◌, sum,
  sum_u64_exact, sum_u64_lem, ◌%◌, u64_mod, modify, ap, ◌∙◌,
}
use helius.Upstream.{Upstream, reset_monthly, start_new_day, add_credits}
use helius.Pool.{Pool}
use helius.Stats.Record.{UsagePoint, capture_month}
use helius.Stats.Roll.{Stats}

abbrev pub closed : Stats → ℕ
closed s = sum (map (λ r. r.total_credits) s.history)

module _ {Limiter : Type 0} where
  abbrev pub used : List (Upstream Limiter) → ℕ
  used ups = sum (map (λ u. u.credits_used) ups)

  abbrev pub lifetime : List (Upstream Limiter) → ℕ
  lifetime ups = sum (map (λ u. u.credits_total) ups)

  -- The closed months and the running one add up to the lifetime totals, in a process that has begun
  -- to count months.
  pub record IsBalanced (s : Stats) (p : Pool Limiter) : Type 0 where
    pub started : s.current_month ≢ 0
    pub books : closed s + used p.upstreams ≡ lifetime p.upstreams
    pub room : lifetime p.upstreams < u64_mod

  -- Charges the key at an index, as `commit_credits` and the keep-alive do.
  unfoldable pub charge_key : (idx cost : ℕ) → List (Upstream Limiter) → List (Upstream Limiter)
  charge_key idx cost ups = modify idx (λ u. (add_credits cost u).0) ups

  pub charge_key-sums :
      (idx cost : ℕ) (ups : List (Upstream Limiter))
      → used ups + cost < u64_mod
      → lifetime ups + cost < u64_mod
      → ((used (charge_key idx cost ups) ≡ used ups + cost)
          × (lifetime (charge_key idx cost ups) ≡ lifetime ups + cost))
        ⊎ (charge_key idx cost ups ≡ ups)
  unfolding charge_key add_credits
  charge_key-sums zero cost [] u l = inr refl
  charge_key-sums (suc idx) cost [] u l = inr refl
  charge_key-sums zero cost (x ∷ ups) u l = inl (omega arith, omega arith)
  charge_key-sums (suc idx) cost (x ∷ ups) u l =
      elim (charge_key-sums idx cost ups (omega arith) (omega arith)) [
        | inl (a, b) ↦ inl (omega (arith, a), omega (arith, b))
        | inr same ↦ inr (ap (λ t. x ∷ t) same)
      ]

  pub reset-sums :
      (cur : ℕ) (ups : List (Upstream Limiter))
      → (used (map (reset_monthly cur) ups) ≡ 0)
        × (lifetime (map (reset_monthly cur) ups) ≡ lifetime ups)
  unfolding reset_monthly
  reset-sums cur [] = (refl, refl)
  reset-sums cur (x ∷ ups) = omega (arith, reset-sums cur ups)

  pub day-sums :
      (ups : List (Upstream Limiter))
      → (used (map start_new_day ups) ≡ used ups)
        × (lifetime (map start_new_day ups) ≡ lifetime ups)
  unfolding start_new_day
  day-sums [] = (refl, refl)
  day-sums (x ∷ ups) = omega (arith, day-sums ups)

  points-sum :
      (f : Upstream Limiter → ℕ) (ups : List (Upstream Limiter))
      → sum (
          map
            (λ (u : UsagePoint). u.credits_used)
            (map (λ (u : Upstream Limiter). record { name = u.name; credits_used = f u }) ups))
        ≡ sum (map f ups)
  points-sum f [] = refl
  points-sum f (x ∷ ups) = omega (arith, points-sum f ups)

  -- The total of a closed month is what its keys had used.
  pub capture_month-total :
      (p : Pool Limiter) (month : ℕ)
      → used p.upstreams < u64_mod
      → (capture_month p month).total_credits ≡ used p.upstreams
  unfolding capture_month
  capture_month-total p month small =
      let e = points-sum (λ (u : Upstream Limiter). u.credits_used) p.upstreams in
      sum_u64_exact _ (omega (arith, e)) ∙ e

  -- The same whatever its keys had used, modulo 2^64.
  pub capture_month-total_mod :
      (p : Pool Limiter) (month : ℕ)
      → (capture_month p month).total_credits ≡ used p.upstreams % u64_mod
  unfolding capture_month
  capture_month-total_mod p month =
      sum_u64_lem _
      ∙ ap (λ (t : ℕ). t % u64_mod)
          (points-sum (λ (u : Upstream Limiter). u.credits_used) p.upstreams)
