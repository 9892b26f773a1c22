-- ===== src/Stats/Closing.antt =====
-- Who closes a period, and what is left of the counters.
use helius.Common.{
  ℕ, ◌≡◌, ◌≢◌, refl, ap, sym, subst, ◌∙◌, arith, [], ◌∷◌, ◌++◌, map, nat_eq, ◌⊎◌, sum, ◌%◌, u64_mod,
}
use helius.Upstream.{Upstream, reset_monthly, start_new_day}
use helius.Pool.{Pool}
use helius.Stats.Record.{capture_month, usage_points}
use helius.Stats.Ledger.{capture_month-total_mod}
use helius.Stats.Roll.{
  Stats, roll_month_from, roll_month_if_changed, roll_day_from, roll_day_if_changed, push_daily,
  remaining_gauges,
}

module _ {Limiter : Type 0} where
  pub roll_day_from_once :
      (prev cur cur' retention : ℕ) (p p' : Pool Limiter) (s : Stats)
      → s.current_day ≡ prev
      → cur ≢ prev
      → roll_day_from prev p' cur' retention (roll_day_from prev p cur retention s).0
        ≡ ((roll_day_from prev p cur retention s).0, p')
  unfolding roll_day_from push_daily
  roll_day_from_once prev cur cur' retention p p' s at ne = ground arith

  -- The results of the two rollovers where the period changes, written out.
  pub roll_month-change :
      (cur : ℕ) (p : Pool Limiter) (s : Stats)
      → s.current_month ≢ 0
      → s.current_month ≢ cur
      → roll_month_if_changed p cur s ≡ (
        record s {
          current_month = cur;
          history = s.history ++ capture_month p s.current_month ∷ [];
        },
        record p { upstreams = map (reset_monthly cur) p.upstreams },
        remaining_gauges (map (reset_monthly cur) p.upstreams),
      )
  unfolding roll_month_if_changed
  roll_month-change cur p s started other = ground arith

  pub roll_month-same :
      (cur : ℕ) (p : Pool Limiter) (s : Stats)
      → s.current_month ≡ cur
      → roll_month_if_changed p cur s ≡ (s, p, [])
  unfolding roll_month_if_changed
  roll_month-same cur p s same = ground arith

  -- The month that was running is closed: the history ends with it, the credits that each key had used in
  -- it and their sum as a u64, and the keys start the new month with nothing used and are otherwise the same.
  pub record HasClosed (cur : ℕ) (p : Pool Limiter) (s s' : Stats) (p' : Pool Limiter)
      : Type 0 where
    pub closed :
        s'.history
        ≡ s.history
          ++ record {
            month = s.current_month;
            total_credits = sum (map (λ u. u.credits_used) p.upstreams) % u64_mod;
            upstreams =
                map
                  (λ (u : Upstream Limiter). record {
                    name = u.name;
                    credits_used = u.credits_used;
                  })
                  p.upstreams;
          }
            ∷ []
    pub month : s'.current_month ≡ cur
    pub days : (s'.current_day ≡ s.current_day) × (s'.daily_history ≡ s.daily_history)
    pub requests : (s'.all_exhausted ≡ s.all_exhausted) × (s'.methods ≡ s.methods)
    pub keys :
        p'.upstreams
        ≡ map
            (λ (u : Upstream Limiter). record u { credits_used = 0; epoch_yyyymm = cur })
            p.upstreams

  pub roll_month-HasClosed :
      (cur : ℕ) (p : Pool Limiter) (s : Stats)
      → s.current_month ≢ 0
      → s.current_month ≢ cur
      → HasClosed cur p s (roll_month_if_changed p cur s).0 (roll_month_if_changed p cur s).1
  unfolding capture_month usage_points reset_monthly
  roll_month-HasClosed cur p s started other =
      rw (roll_month-change cur p s started other) (record {
        closed =
            ap
              (λ t.
                s.history
                ++ record {
                  month = s.current_month;
                  total_credits = t;
                  upstreams =
                      map
                        (λ (u : Upstream Limiter). record {
                          name = u.name;
                          credits_used = u.credits_used;
                        })
                        p.upstreams;
                }
                  ∷ [])
              (capture_month-total_mod p s.current_month);
        month = refl;
        days = (refl, refl);
        requests = (refl, refl);
        keys = refl;
      })

  -- A change of month, in a process that has begun to count months, closes the month that was running: the
  -- history ends with the credits that each key had used in it and their sum modulo 2^64, and the keys start the
  -- new month with nothing used and are otherwise the same; without a change nothing happens.
  pub roll_month_if_changed_lem :
      (cur : ℕ) (p : Pool Limiter) (s : Stats)
      → s.current_month ≢ 0
      → let (s', p', events) = roll_month_if_changed p cur s in
        (s.current_month ≡ cur → (s' ≡ s) × (p' ≡ p) × (events ≡ []))
        × (s.current_month ≢ cur → HasClosed cur p s s' p')
  roll_month_if_changed_lem cur p s started = (
    λ same. rw (roll_month-same cur p s same) (refl, refl, refl),
    roll_month-HasClosed cur p s started,
  )

  roll_month_from-lost :
      (prev cur cur' : ℕ) (p p' : Pool Limiter) (s : Stats)
      → s.current_month ≡ prev
      → cur ≢ prev
      → roll_month_from prev p' cur' (roll_month_from prev p cur s).0
        ≡ ((roll_month_from prev p cur s).0, p', [])
  unfolding roll_month_from
  roll_month_from-lost prev cur cur' p p' s at ne = ground arith

  -- Of two callers that loaded the same month, the one that swaps first closes it: the history ends with
  -- the credits that each key had used in it and their sum modulo 2^64, and the keys start the new month
  -- with nothing used. The other changes nothing, whatever has happened to the pool in between. The process
  -- has begun to count months.
  pub roll_month_from_once :
      (prev cur cur' : ℕ) (p p' : Pool Limiter) (s : Stats)
      → s.current_month ≡ prev
      → cur ≢ prev
      → prev ≢ 0
      → let (won, rolled, _) = roll_month_from prev p cur s in
        HasClosed cur p s won rolled × (roll_month_from prev p' cur' won ≡ (won, p', []))
  unfolding roll_month_if_changed
  roll_month_from_once prev cur cur' p p' s at ne started = (
    subst (λ m. HasClosed cur p s (roll_month_from m p cur s).0 (roll_month_from m p cur s).1) at
        (roll_month-HasClosed cur p s (λ e. started (sym at ∙ e)) (λ e. ne (sym e ∙ at))),
    roll_month_from-lost prev cur cur' p p' s at ne,
  )

  -- A rollover of the day leaves the months alone, and each key as it is or with a new baseline.
  pub roll_day-months :
      (cur retention : ℕ) (p : Pool Limiter) (s : Stats)
      → ((roll_day_if_changed p cur retention s).0.history ≡ s.history)
        × ((roll_day_if_changed p cur retention s).0.current_month ≡ s.current_month)
        × (((roll_day_if_changed p cur retention s).1.upstreams ≡ p.upstreams)
            ⊎ ((roll_day_if_changed p cur retention s).1.upstreams ≡ map start_new_day p.upstreams))
  unfolding roll_day_if_changed push_daily
  roll_day-months cur retention p s = (ground arith, ground arith, ground arith)
