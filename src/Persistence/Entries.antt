-- ===== src/Persistence/Entries.antt =====
-- The closed periods and the changes of a boundary, on the durable counters of the keys: what
-- src/persistence.rs and src/stats.rs both work with.
use helius.Common.{ℕ, List, [], ◌∷◌, map, ◌≡◌, refl, ap, sym, ◌∙◌, ◌-◌, nat_eq, string_eq}
use helius.Upstream.{Upstream, restore_monthly, reset_monthly, start_new_day, daily_used}
use helius.Pool.{Pool}
use helius.Stats.{Stats, UsagePoint, usage_points, total_of, capture_month, capture_day}
use helius.Persistence.Snapshot.{UpstreamSnap, snap_of}
use helius.Persistence.Roundtrip.{HaveSameNames, all_taking_over}

map-map :
    {A B C : Type 0} (f : A → B) (g : B → C) (xs : List A)
    → map g (map f xs) ≡ map (λ x. g (f x)) xs
map-map f g [] = refl
map-map f g (x ∷ xs) = ap (λ t. g (f x) ∷ t) (map-map f g xs)

abbrev pub day_point : UpstreamSnap → UsagePoint
day_point s = record { name = s.name; credits_used = s.credits_total - s.day_start_total }

abbrev pub month_point : UpstreamSnap → UsagePoint
month_point s = record { name = s.name; credits_used = s.credits_used }

abbrev pub new_day : UpstreamSnap → UpstreamSnap
new_day s = record s { day_start_total = s.credits_total }

abbrev pub new_month : UpstreamSnap → UpstreamSnap
new_month s = record s { credits_used = 0 }

-- The statistics without the current month and day.
abbrev pub periodless : Stats → Stats
periodless s = record s { current_month = 0; current_day = 0 }

module _ {Limiter : Type 0} where
  abbrev pub snaps : List (Upstream Limiter) → List UpstreamSnap
  snaps = map snap_of

  pub capture_month-snaps :
      (p : Pool Limiter) (m : ℕ)
      → capture_month p m ≡ record {
        month = m;
        total_credits = total_of (map month_point (snaps p.upstreams));
        upstreams = map month_point (snaps p.upstreams);
      }
  unfolding capture_month usage_points snap_of
  capture_month-snaps p m =
      ap (λ ps. record { month = m; total_credits = total_of ps; upstreams = ps })
        (sym (map-map snap_of month_point p.upstreams))

  capture_day-snaps :
      (p : Pool Limiter) (d : ℕ)
      → capture_day p d ≡ record {
        day = d;
        total_credits = total_of (map day_point (snaps p.upstreams));
        upstreams = map day_point (snaps p.upstreams);
      }
  unfolding capture_day usage_points snap_of daily_used
  capture_day-snaps p d =
      ap (λ ps. record { day = d; total_credits = total_of ps; upstreams = ps })
        (sym (map-map snap_of day_point p.upstreams))

  pub capture_day_same :
      (p p' : Pool Limiter)
      → snaps p.upstreams ≡ snaps p'.upstreams
      → (d : ℕ) → capture_day p d ≡ capture_day p' d
  capture_day_same p p' same d =
      capture_day-snaps p d
      ∙ ap
          (λ ss. record {
            day = d;
            total_credits = total_of (map day_point ss);
            upstreams = map day_point ss;
          })
          same
      ∙ sym (capture_day-snaps p' d)

  pub start_new_day-snaps :
      (ups : List (Upstream Limiter)) → snaps (map start_new_day ups) ≡ map new_day (snaps ups)
  unfolding start_new_day snap_of
  start_new_day-snaps [] = refl
  start_new_day-snaps (u ∷ ups) = ap (λ t. new_day (snap_of u) ∷ t) (start_new_day-snaps ups)

  pub reset_monthly-snaps :
      (m : ℕ) (ups : List (Upstream Limiter))
      → snaps (map (reset_monthly m) ups) ≡ map new_month (snaps ups)
  unfolding reset_monthly snap_of
  reset_monthly-snaps m [] = refl
  reset_monthly-snaps m (u ∷ ups) = ap (λ t. new_month (snap_of u) ∷ t) (reset_monthly-snaps m ups)

  pub taken_over-snaps :
      (m : ℕ) (fs us : List (Upstream Limiter))
      → HaveSameNames fs us
      → snaps (map (restore_monthly m 0) (all_taking_over fs us)) ≡ map new_month (snaps us)
  unfolding restore_monthly snap_of
  taken_over-snaps m [] [] same = refl
  taken_over-snaps m [] (u ∷ us) same = absurd same
  taken_over-snaps m (f ∷ fs) [] same = absurd same
  taken_over-snaps m (f ∷ fs) (u ∷ us) same =
      let tail = taken_over-snaps m fs us same.1 in rw (same.0, tail)
