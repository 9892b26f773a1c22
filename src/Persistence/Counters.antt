-- ===== src/Persistence/Counters.antt =====
-- The durable counters of a key, read off its own fields, so that what comes back is not judged by the
-- program's own `snap_of`.
use helius.Common.{ℕ, String, List, [], ◌∷◌, map, ◌≡◌, refl, ap, sym, ◌∙◌}
use helius.Upstream.{Upstream}
use helius.Persistence.Snapshot.{UpstreamSnap, snap_of}

pub record Counters : Type 0 where
  pub name : String
  pub used : ℕ
  pub total : ℕ
  pub served : ℕ
  pub limited : ℕ
  pub failed : ℕ
  pub hits : ℕ
  pub day_start : ℕ

recorded : UpstreamSnap → Counters
recorded s = record {
  name = s.name;
  used = s.credits_used;
  total = s.credits_total;
  served = s.requests_ok;
  limited = s.requests_rate_limited;
  failed = s.requests_error;
  hits = s.rate_limit_hits;
  day_start = s.day_start_total;
}

module _ {Limiter : Type 0} where
  abbrev pub counters : Upstream Limiter → Counters
  counters u = record {
    name = u.name;
    used = u.credits_used;
    total = u.credits_total;
    served = u.requests_ok;
    limited = u.requests_rate_limited;
    failed = u.requests_error;
    hits = u.rate_limit_hits;
    day_start = u.day_start_total;
  }

  recorded-snaps :
      (ups : List (Upstream Limiter)) → map counters ups ≡ map recorded (map snap_of ups)
  unfolding recorded snap_of
  recorded-snaps [] = refl
  recorded-snaps (u ∷ ups) = ap (λ t. counters u ∷ t) (recorded-snaps ups)

  -- An entry has every counter of its key.
  pub snaps-counters :
      (us vs : List (Upstream Limiter))
      → map snap_of us ≡ map snap_of vs
      → map counters us ≡ map counters vs
  snaps-counters us vs same = recorded-snaps us ∙ ap (map recorded) same ∙ sym (recorded-snaps vs)
