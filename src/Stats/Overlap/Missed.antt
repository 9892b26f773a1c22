-- ===== src/Stats/Overlap/Missed.antt =====
-- What the history misses where charges come between the steps of a rollover.
use helius.Common.{
  ℕ, ◌+◌, ◌<◌, ◌≤◌, ◌≡◌, ◌≢◌, refl, arith, List, [], ◌∷◌, nat_eq, length, get_elem?, All, u64_mod,
  sym, subst,
}
use native.Mathlib.Nat.{add-zero, add_assoc}
use helius.Stats.Ledger.{closed, used, lifetime, IsBalanced}
use helius.Stats.Overlap.{
  Phase, idle, loaded, reading, resetting, Rolling, Act, begin, advance, charge, missed_by, missed,
  costs, IsDated, step, run, advance_from, begin_from,
}
use helius.Stats.Overlap.Owed.{IsOwed, swap-IsOwed, read-IsOwed, reset-IsOwed, charge-IsOwed}

costs-cons : (a : Act) (acts : List Act) → costs (a ∷ acts) ≡ costs (a ∷ []) + costs acts
costs-cons (begin _) acts = omega arith
costs-cons advance acts = omega arith
costs-cons (charge _ cost) acts = omega arith

module _ {Limiter : Type 0} where
  advance-IsOwed :
      (phase : Phase) (lost : ℕ) (r : Rolling Limiter)
      → r.phase ≡ phase
      → IsOwed lost phase r.stats r.pool.upstreams
      → let r' = advance_from phase r in
        IsOwed lost r'.phase r'.stats r'.pool.upstreams
        × (lifetime r'.pool.upstreams ≡ lifetime r.pool.upstreams)
  unfolding advance_from
  advance-IsOwed idle lost r at h =
      (subst (λ q. IsOwed lost q r.stats r.pool.upstreams) (sym at) h, refl)
  advance-IsOwed (loaded prev cur) lost r at h = swap-IsOwed prev cur lost r h
  advance-IsOwed (reading prev cur points) lost r at h =
      read-IsOwed prev cur lost points (get_elem? r.pool.upstreams (length points)) r refl h
  advance-IsOwed (resetting cur i) lost r at h =
      reset-IsOwed cur i lost (get_elem? r.pool.upstreams i) r refl h

  begin-IsOwed :
      (phase : Phase) (cur lost : ℕ) (r : Rolling Limiter)
      → r.phase ≡ phase
      → cur ≢ 0
      → IsOwed lost phase r.stats r.pool.upstreams
      → let r' = begin_from cur phase r in
        IsOwed lost r'.phase r'.stats r'.pool.upstreams
        × (lifetime r'.pool.upstreams ≡ lifetime r.pool.upstreams)
  unfolding begin_from
  begin-IsOwed idle cur lost r at dated h =
      (record { started = h.started; called = dated; books = h.books; room = h.room }, refl)
  begin-IsOwed (loaded prev c) cur lost r at dated h =
      (subst (λ q. IsOwed lost q r.stats r.pool.upstreams) (sym at) h, refl)
  begin-IsOwed (reading prev c points) cur lost r at dated h =
      (subst (λ q. IsOwed lost q r.stats r.pool.upstreams) (sym at) h, refl)
  begin-IsOwed (resetting c i) cur lost r at dated h =
      (subst (λ q. IsOwed lost q r.stats r.pool.upstreams) (sym at) h, refl)

  step-IsOwed :
      (a : Act) (lost : ℕ) (r : Rolling Limiter)
      → IsDated a
      → IsOwed lost r.phase r.stats r.pool.upstreams
      → lifetime r.pool.upstreams + costs (a ∷ []) < u64_mod
      → let r' = step a r in
        IsOwed (lost + missed_by a r) r'.phase r'.stats r'.pool.upstreams
        × (lifetime r'.pool.upstreams ≤ lifetime r.pool.upstreams + costs (a ∷ []))
  unfolding step
  step-IsOwed (begin cur) lost r d h room =
      let (kept, same) = begin-IsOwed r.phase cur lost r refl d h in
      rw (add-zero lost) (kept, omega (arith, same))
  step-IsOwed advance lost r d h room =
      let (kept, same) = advance-IsOwed r.phase lost r refl h in
      rw (add-zero lost) (kept, omega (arith, same))
  step-IsOwed (charge idx cost) lost r d h room =
      rw (add-zero cost)
        (charge-IsOwed r.phase idx cost lost r.stats r.pool.upstreams h (omega (arith, room)))

  run-IsOwed :
      (acts : List Act) (lost : ℕ) (r : Rolling Limiter)
      → All IsDated acts
      → IsOwed lost r.phase r.stats r.pool.upstreams
      → lifetime r.pool.upstreams + costs acts < u64_mod
      → let r' = run acts r in IsOwed (lost + missed acts r) r'.phase r'.stats r'.pool.upstreams
  unfolding run missed
  run-IsOwed [] lost r d h room = rw (add-zero lost) h
  run-IsOwed (a ∷ acts) lost r d h room =
      let more = costs-cons a acts in
      let (kept, grown) = step-IsOwed a lost r d.0 h (omega (arith, more)) in
      rw (← add_assoc)
        (run-IsOwed acts (lost + missed_by a r) (step a r) d.1 kept (omega (arith, more, grown)))

  -- However charges come between the steps of month rollovers, at each time outside a rollover the closed months and
  -- the running one fall short of the lifetime totals by exactly the credits that were charged to keys between the
  -- read of their counter for the closing month and its reset. The process has begun to count months and its books
  -- balanced before, months are not 0, and the lifetime totals fit into a u64.
  pub run-missed :
      (acts : List Act) (r : Rolling Limiter)
      → All IsDated acts
      → r.phase ≡ idle
      → IsBalanced r.stats r.pool
      → lifetime r.pool.upstreams + costs acts < u64_mod
      → (run acts r).phase ≡ idle
      → let r' = run acts r in
        closed r'.stats + used r'.pool.upstreams + missed acts r ≡ lifetime r'.pool.upstreams
  run-missed acts r d at b room ends =
      let first : IsOwed 0 idle r.stats r.pool.upstreams = record {
        started = b.started;
        called = tt;
        books = omega (arith, b.books);
        room = b.room;
      } in
      let owed =
        run-IsOwed acts 0 r d (subst (λ q. IsOwed 0 q r.stats r.pool.upstreams) (sym at) first)
          room in
      let h =
        subst (λ q. IsOwed (0 + missed acts r) q (run acts r).stats (run acts r).pool.upstreams)
          ends owed in
      omega (arith, h.books)
