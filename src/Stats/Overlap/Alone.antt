-- ===== src/Stats/Overlap/Alone.antt =====
-- A rollover whose steps follow one another is the rollover as one function.
use helius.Common.{
  ℕ, ◌≡◌, ◌≢◌, refl, arith, List, [], ◌∷◌, ◌++◌, map, ◌==◌, nat_eq, nat_beq_iff, Bool-cases, inl,
  inr, length, length-map, length-append_one, get_elem?-middle, get_elem?-length, modify-middle, ap,
  sym, subst, ◌∙◌,
}
use mathlib.Core.List.{map-append, append_assoc, append-nil}
use helius.Upstream.{Upstream, reset_monthly}
use helius.Pool.{Pool}
use helius.Stats.Record.{UsagePoint, capture_month}
use helius.Stats.Roll.{Stats, roll_month_if_changed}
use helius.Stats.Closing.{HasClosed, roll_month-HasClosed, roll_month-same, roll_month-change}
use helius.Stats.Overlap.{
  idle, loaded, reading, resetting, Rolling, Act, begin, advance, step, run, advance_from,
}
use helius.Stats.Overlap.Swap.{swap_month-same, swap_month-won}

module _ {Limiter : Type 0} where
  -- A step for each key.
  abbrev pub each : List (Upstream Limiter) → List Act
  each ups = map (λ _. advance) ups

  -- The call, the swap, the reads and the push, the resets and the end of the loop.
  abbrev pub rollover : (cur : ℕ) → List (Upstream Limiter) → List Act
  rollover cur ups = begin cur ∷ advance ∷ (each ups ++ advance ∷ (each ups ++ advance ∷ []))

  step-idle : (r : Rolling Limiter) → r.phase ≡ idle → step advance r ≡ r
  unfolding step
  step-idle r at = ap (λ q. advance_from q r) at

  run-idle :
      (ups : List (Upstream Limiter)) (acts : List Act) (r : Rolling Limiter)
      → r.phase ≡ idle
      → run (each ups ++ acts) r ≡ run acts r
  unfolding run
  run-idle [] acts r at = refl
  run-idle (u ∷ ups) acts r at =
      ap (run (each ups ++ acts)) (step-idle r at) ∙ run-idle ups acts r at

  abbrev point : Upstream Limiter → UsagePoint
  point u = record { name = u.name; credits_used = u.credits_used }

  abbrev at_reads :
      (prev cur : ℕ)
      → Stats
      → (cursor : ℕ) → (ups : List (Upstream Limiter)) → List UsagePoint
      → Rolling Limiter
  at_reads prev cur s cursor ups points = record {
    stats = s;
    pool = record { upstreams = ups; cursor = cursor };
    phase = reading prev cur points;
  }

  abbrev at_resets :
      (cur : ℕ) → Stats → (cursor : ℕ) → (i : ℕ) (ups : List (Upstream Limiter)) → Rolling Limiter
  at_resets cur s cursor i ups = record {
    stats = s;
    pool = record { upstreams = ups; cursor = cursor };
    phase = resetting cur i;
  }

  -- The statistics after the push.
  abbrev closes : (prev : ℕ) → Stats → (cursor : ℕ) → List (Upstream Limiter) → Stats
  closes prev s cursor ups = record s {
    history = s.history ++ capture_month (record { upstreams = ups; cursor = cursor }) prev ∷ [];
  }

  module _ (cur : ℕ) (s : Stats) (cursor : ℕ) where
    read-next :
        (prev : ℕ) (pre post : List (Upstream Limiter)) (u : Upstream Limiter)
        → step advance (at_reads prev cur s cursor (pre ++ u ∷ post) (map point pre))
          ≡ at_reads prev cur s cursor (pre ++ u ∷ post) (map point (pre ++ u ∷ []))
    unfolding step
    read-next prev pre post u =
        rw (length-map point pre, get_elem?-middle pre post u, map-append) refl

    read-last :
        (prev : ℕ) (ups : List (Upstream Limiter))
        → step advance (at_reads prev cur s cursor ups (map point ups))
          ≡ at_resets cur (closes prev s cursor ups) cursor 0 ups
    unfolding step capture_month
    read-last prev ups = rw (length-map point ups, get_elem?-length ups) refl

    run-reads :
        (prev : ℕ) (pre post : List (Upstream Limiter)) (acts : List Act)
        → run
            (each post ++ advance ∷ acts)
            (at_reads prev cur s cursor (pre ++ post) (map point pre))
          ≡ run acts (at_resets cur (closes prev s cursor (pre ++ post)) cursor 0 (pre ++ post))
    unfolding run
    run-reads prev pre [] acts = rw (append-nil pre) (ap (run acts) (read-last prev pre))
    run-reads prev pre (u ∷ post) acts =
        ap (run (each post ++ advance ∷ acts)) (read-next prev pre post u)
        ∙ subst
            (λ ups.
              run (each post ++ advance ∷ acts)
                (at_reads prev cur s cursor ups (map point (pre ++ u ∷ [])))
              ≡ run acts (at_resets cur (closes prev s cursor ups) cursor 0 ups))
            (append_assoc pre (u ∷ []) post) (run-reads prev (pre ++ u ∷ []) post acts)

    reset-next :
        (pre post : List (Upstream Limiter)) (u : Upstream Limiter)
        → step advance (at_resets cur s cursor (length pre) (pre ++ u ∷ post))
          ≡ at_resets cur s cursor
              (length (pre ++ reset_monthly cur u ∷ []))
              (pre ++ reset_monthly cur u ∷ post)
    unfolding step
    reset-next pre post u = rw (get_elem?-middle pre post u, modify-middle, length-append_one) refl

    reset-last :
        (ups : List (Upstream Limiter))
        → step advance (at_resets cur s cursor (length ups) ups)
          ≡ record { stats = s; pool = record { upstreams = ups; cursor = cursor }; phase = idle }
    unfolding step
    reset-last ups = rw (get_elem?-length ups) refl

    run-resets :
        (pre post : List (Upstream Limiter))
        → run (each post ++ advance ∷ []) (at_resets cur s cursor (length pre) (pre ++ post))
          ≡ record {
            stats = s;
            pool = record { upstreams = pre ++ map (reset_monthly cur) post; cursor = cursor };
            phase = idle;
          }
    unfolding run
    run-resets pre [] = rw (append-nil pre) (reset-last pre)
    run-resets pre (u ∷ post) =
        ap (run (each post ++ advance ∷ [])) (reset-next pre post u)
        ∙ (let u' = reset_monthly cur u in
            ap
              (λ (ups : List (Upstream Limiter)).
                run (each post ++ advance ∷ [])
                  (at_resets cur s cursor (length (pre ++ u' ∷ [])) ups))
              (sym (append_assoc pre (u' ∷ []) post))
            ∙ run-resets (pre ++ u' ∷ []) post
            ∙ ap
                (λ (ups : List (Upstream Limiter)). record {
                  stats = s;
                  pool = record { upstreams = ups; cursor = cursor };
                  phase = idle;
                })
                (append_assoc pre (u' ∷ []) (map (reset_monthly cur) post)))

  abbrev pub resting : Stats → Pool Limiter → Rolling Limiter
  resting s p = record { stats = s; pool = p; phase = idle }

  rollover-change :
      (cur : ℕ) (s : Stats) (p : Pool Limiter)
      → s.current_month ≢ 0
      → s.current_month ≢ cur
      → run (rollover cur p.upstreams) (resting s p)
        ≡ (let (stats, pool, _) = roll_month_if_changed p cur s in resting stats pool)
  unfolding run
  rollover-change cur s p started other =
      let calls : Rolling Limiter = record {
        stats = s;
        pool = p;
        phase = loaded s.current_month cur;
      } in
      let s' = record s { current_month = cur } in
      rw (roll_month-change cur p s started other) (
        ap (run (each p.upstreams ++ advance ∷ (each p.upstreams ++ advance ∷ [])))
          (swap_month-won s.current_month cur calls other refl started)
        ∙ run-reads cur s' p.cursor s.current_month [] p.upstreams
            (each p.upstreams ++ advance ∷ [])
        ∙ run-resets cur (closes s.current_month s' p.cursor p.upstreams) p.cursor [] p.upstreams)

  rollover-same :
      (cur : ℕ) (s : Stats) (p : Pool Limiter)
      → s.current_month ≡ cur
      → run (rollover cur p.upstreams) (resting s p) ≡ resting s p
  unfolding run
  rollover-same cur s p same =
      let calls : Rolling Limiter = record {
        stats = s;
        pool = p;
        phase = loaded s.current_month cur;
      } in
      ap (run (each p.upstreams ++ advance ∷ (each p.upstreams ++ advance ∷ [])))
        (swap_month-same s.current_month cur calls same)
      ∙ run-idle p.upstreams (advance ∷ (each p.upstreams ++ advance ∷ [])) (resting s p) refl
      ∙ run-idle p.upstreams (advance ∷ []) (resting s p) refl

  run-rolled :
      (cur : ℕ) (s : Stats) (p : Pool Limiter)
      → s.current_month ≢ 0
      → run (rollover cur p.upstreams) (resting s p)
        ≡ (let (stats, pool, _) = roll_month_if_changed p cur s in resting stats pool)
  run-rolled cur s p started = elim (Bool-cases (s.current_month == cur)) [
    | inl same ↦
        let e = (nat_beq_iff s.current_month cur).0 same in
        rw (roll_month-same cur p s e) (rollover-same cur s p e)
    | inr other ↦ rollover-change cur s p started (λ e. ground arith)
  ]

  -- A month rollover whose steps follow one another, in a process that has begun to count months, ends after two
  -- steps for each key and four more, with the statistics and the pool that `roll_month_if_changed` leaves. Where
  -- the month changes, these have closed it: the history ends with the credits that each key had used and their sum
  -- modulo 2^64, and the keys start the new month with nothing used. Where it does not, nothing has changed.
  pub run-rollover :
      (cur : ℕ) (s : Stats) (p : Pool Limiter)
      → s.current_month ≢ 0
      → let r = run (rollover cur p.upstreams) (resting s p) in
        (let (stats, pool, _) = roll_month_if_changed p cur s in r ≡ resting stats pool)
        × (s.current_month ≡ cur → r ≡ resting s p)
        × (s.current_month ≢ cur → (r.phase ≡ idle) × HasClosed cur p s r.stats r.pool)
  run-rollover cur s p started =
      let (stats, pool, _) = roll_month_if_changed p cur s in
      let ends = run-rolled cur s p started in
      (
        ends,
        rollover-same cur s p,
        λ other.
            subst (λ r. (r.phase ≡ idle) × HasClosed cur p s r.stats r.pool) (sym ends)
              (refl, roll_month-HasClosed cur p s started other),
      )
