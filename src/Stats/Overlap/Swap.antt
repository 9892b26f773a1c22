-- ===== src/Stats/Overlap/Swap.antt =====
-- The cases of the compare-and-swap of a month rollover.
use helius.Common.{◌≡◌, ◌≢◌, ℕ, arith, [], ◌==◌, nat_eq, nat_beq_iff, Bool-cases, inl, inr, ◌⊎◌}
use helius.Stats.Overlap.{idle, reading, Rolling, swap_month}

module _ {Limiter : Type 0} where
  pub swap_month-same :
      (prev cur : ℕ) (r : Rolling Limiter)
      → prev ≡ cur
      → swap_month prev cur r ≡ record r { phase = idle }
  unfolding swap_month
  swap_month-same prev cur r same = ground arith

  swap_month-lost :
      (prev cur : ℕ) (r : Rolling Limiter)
      → r.stats.current_month ≢ prev
      → swap_month prev cur r ≡ record r { phase = idle }
  unfolding swap_month
  swap_month-lost prev cur r lost = ground arith

  pub swap_month-won :
      (prev cur : ℕ) (r : Rolling Limiter)
      → prev ≢ cur
      → r.stats.current_month ≡ prev
      → prev ≢ 0
      → swap_month prev cur r
        ≡ record r { stats = record r.stats { current_month = cur }; phase = reading prev cur [] }
  unfolding swap_month
  swap_month-won prev cur r other won begun = ground arith

  -- A rollover in a month that has begun ends at once or goes on to read the keys.
  pub swap_month_cases :
      (prev cur : ℕ) (r : Rolling Limiter)
      → r.stats.current_month ≢ 0
      → (swap_month prev cur r ≡ record r { phase = idle })
        ⊎ (swap_month prev cur r ≡ record r {
          stats = record r.stats { current_month = cur };
          phase = reading prev cur [];
        })
  swap_month_cases prev cur r started = elim (Bool-cases (prev == cur)) [
    | inl same ↦ inl (swap_month-same prev cur r ((nat_beq_iff prev cur).0 same))
    | inr other ↦ elim (Bool-cases (r.stats.current_month == prev)) [
      | inl won ↦
          inr (swap_month-won prev cur r (λ e. ground arith) (ground arith) (λ e. ground arith))
      | inr lost ↦ inl (swap_month-lost prev cur r (λ e. ground arith))
    ]
  ]
