-- ===== src/Stats/Overlap/Owed.antt =====
-- The books of a month rollover under way: what its steps and the charges between them owe to the history.
use helius.Common.{
  ℕ, suc, ◌+◌, ◌<◌, ◌≤◌, ◌≡◌, ◌≢◌, refl, arith, Option, none, some, List, [], ◌∷◌, ◌++◌, map,
  nat_eq, inl, inr, length, length-append, get_elem?, drop, sum, sum-map-append, sum_u64_exact,
  u64_mod,
}
use helius.Upstream.{Upstream}
use helius.Stats.Record.{UsagePoint, MonthlyRecord, total_of}
use helius.Stats.Roll.{Stats}
use helius.Stats.Ledger.{closed, used, lifetime, charge_key}
use helius.Stats.Overlap.{
  Phase, idle, loaded, reading, resetting, Rolling, missed_in, swap_month, read_key, reset_key,
}
use helius.Stats.Overlap.Swap.{swap_month_cases}
use helius.Stats.Overlap.Parts.{
  used_before, used-drop_read, used-drop_end, used_before_end, used_before-reset, lifetime-charge,
  used-charge, used-drop-charge, used_before-charge,
}

abbrev pub noted : List UsagePoint → ℕ
noted points = sum (map (λ p. p.credits_used) points)

total_of_exact :
    (points : List UsagePoint) → noted points < u64_mod → total_of points ≡ noted points
unfolding total_of
total_of_exact points h = sum_u64_exact _ h

abbrev pub IsCalled : Phase → Type 0
IsCalled idle = Unit
IsCalled (loaded _ cur) = cur ≢ 0
IsCalled (reading _ _ _) = Unit
IsCalled (resetting _ _) = Unit

module _ {Limiter : Type 0} where
  -- The credits that are not in the history yet: those of the running month, and in a rollover those of the points
  -- that were read and of the keys that are still to be read, or those of the keys that were reset.
  abbrev pub pending : Phase → List (Upstream Limiter) → ℕ
  pending idle ups = used ups
  pending (loaded _ _) ups = used ups
  pending (reading _ _ points) ups = noted points + used (drop (length points) ups)
  pending (resetting _ i) ups = used_before i ups

  -- The books of a rollover under way, with the credits that were missed so far.
  pub record IsOwed (lost : ℕ) (phase : Phase) (s : Stats) (ups : List (Upstream Limiter))
      : Type 0 where
    pub started : s.current_month ≢ 0
    pub called : IsCalled phase
    pub books : closed s + pending phase ups + lost ≡ lifetime ups
    pub room : lifetime ups < u64_mod

  pub swap-IsOwed :
      (prev cur lost : ℕ) (r : Rolling Limiter)
      → IsOwed lost (loaded prev cur) r.stats r.pool.upstreams
      → let r' = swap_month prev cur r in
        IsOwed lost r'.phase r'.stats r'.pool.upstreams
        × (lifetime r'.pool.upstreams ≡ lifetime r.pool.upstreams)
  swap-IsOwed prev cur lost r h = elim (swap_month_cases prev cur r h.started) [
    | inl ended ↦
        rw ended (record { started = h.started; called = tt; books = h.books; room = h.room }, refl)
    | inr won ↦ rw won (
      record { started = h.called; called = tt; books = omega (arith, h.books); room = h.room },
      refl,
    )
  ]

  pub read-IsOwed :
      (prev cur lost : ℕ) (points : List UsagePoint) (found : Option (Upstream Limiter))
      (r : Rolling Limiter)
      → get_elem? r.pool.upstreams (length points) ≡ found
      → IsOwed lost (reading prev cur points) r.stats r.pool.upstreams
      → let r' = read_key prev cur points found r in
        IsOwed lost r'.phase r'.stats r'.pool.upstreams
        × (lifetime r'.pool.upstreams ≡ lifetime r.pool.upstreams)
  unfolding read_key
  read-IsOwed prev cur lost points none r e h =
      let none_left = used-drop_end (length points) r.pool.upstreams e in
      let total = total_of_exact points (omega (arith, h.books, h.room)) in
      let closing : MonthlyRecord = record {
        month = prev;
        total_credits = total_of points;
        upstreams = points;
      } in
      (
        record {
          started = h.started;
          called = tt;
          books = omega (
            arith,
            h.books,
            none_left,
            total,
            sum-map-append (λ (q : MonthlyRecord). q.total_credits) r.stats.history closing,
          );
          room = h.room;
        },
        refl,
      )
  read-IsOwed prev cur lost points (some u) r e h =
      let point : UsagePoint = record { name = u.name; credits_used = u.credits_used } in
      let read = used-drop_read (length points) r.pool.upstreams u e in
      let longer : length (points ++ point ∷ []) ≡ suc (length points) =
        omega (arith, length-append points (point ∷ [])) in
      (
        record {
          started = h.started;
          called = tt;
          books = rw longer (
              omega (
                arith,
                h.books,
                read,
                sum-map-append (λ (q : UsagePoint). q.credits_used) points point,
              ));
          room = h.room;
        },
        refl,
      )

  pub reset-IsOwed :
      (cur i lost : ℕ) (found : Option (Upstream Limiter)) (r : Rolling Limiter)
      → get_elem? r.pool.upstreams i ≡ found
      → IsOwed lost (resetting cur i) r.stats r.pool.upstreams
      → let r' = reset_key cur i found r in
        IsOwed lost r'.phase r'.stats r'.pool.upstreams
        × (lifetime r'.pool.upstreams ≡ lifetime r.pool.upstreams)
  unfolding reset_key
  reset-IsOwed cur i lost none r e h = (
    record {
      started = h.started;
      called = tt;
      books = omega (arith, h.books, used_before_end i r.pool.upstreams e);
      room = h.room;
    },
    refl,
  )
  reset-IsOwed cur i lost (some u) r e h =
      let (before, same) = used_before-reset cur i r.pool.upstreams in
      (
        record {
          started = h.started;
          called = tt;
          books = omega (arith, h.books, before, same);
          room = omega (arith, h.room, same);
        },
        same,
      )

  pub charge-IsOwed :
      (phase : Phase) (idx cost lost : ℕ) (s : Stats) (ups : List (Upstream Limiter))
      → IsOwed lost phase s ups
      → lifetime ups + cost < u64_mod
      → IsOwed (lost + missed_in phase idx cost ups) phase s (charge_key idx cost ups)
        × (lifetime (charge_key idx cost ups) ≤ lifetime ups + cost)
  charge-IsOwed idle idx cost lost s ups h room =
      ground (arith, used-charge idx cost ups, lifetime-charge idx cost ups)
  charge-IsOwed (loaded prev cur) idx cost lost s ups h room =
      ground (arith, used-charge idx cost ups, lifetime-charge idx cost ups)
  charge-IsOwed (reading prev cur points) idx cost lost s ups h room =
      ground (arith, used-drop-charge (length points) idx cost ups, lifetime-charge idx cost ups)
  charge-IsOwed (resetting cur i) idx cost lost s ups h room =
      ground (arith, used_before-charge i idx cost ups, lifetime-charge idx cost ups)
