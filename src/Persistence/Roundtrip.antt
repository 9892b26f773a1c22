-- ===== src/Persistence/Roundtrip.antt =====
-- A boot from the snapshot of a running process, into fresh keys of the same names.
use helius.Common.{
  ℕ, true, false, Option, none, some, List, [], ◌∷◌, map, ◌≡◌, refl, ap, sym, subst, ◌∙◌, arith,
  ◌==◌, ==_refl, nat_eq, string_eq, All,
}
use helius.Config.{PersistenceConfig}
use helius.Upstream.{Upstream, restore_monthly, restore_day_start, restore_lifetime}
use helius.Pool.{Pool}
use helius.Stats.{Stats}
use helius.Persistence.Snapshot.{
  UpstreamSnap, Snapshot, snap_of, capture, bytes, snapshot, unreadable, load,
}
use helius.Persistence.Counters.{counters, snaps-counters}
use helius.Persistence.Restore.{
  find_snap, used_in, restore_key, apply_monthly, apply_daily, apply_snapshot, restore_loaded,
  restore_into,
}

module _ {Limiter : Type 0} where
  -- The keys of two pools have the same names in the same order, as the keys of one configuration do.
  abbrev pub HaveSameNames : List (Upstream Limiter) → List (Upstream Limiter) → Type 0
  HaveSameNames [] [] = Unit
  HaveSameNames [] (u ∷ us) = ⊥
  HaveSameNames (f ∷ fs) [] = ⊥
  HaveSameNames (f ∷ fs) (u ∷ us) = (f.name ≡ u.name) × HaveSameNames fs us

  abbrev pub HaveDistinctNames : List (Upstream Limiter) → Type 0
  HaveDistinctNames [] = Unit
  HaveDistinctNames (u ∷ us) = All (λ v. (u.name == v.name) ≡ false) us × HaveDistinctNames us

  -- Every key finds its own entry among the entries.
  abbrev pub AreFound : List UpstreamSnap → List (Upstream Limiter) → Type 0
  AreFound snaps = All (λ u. find_snap snaps u.name ≡ some (snap_of u))

  found_behind :
      (s : UpstreamSnap) (snaps : List UpstreamSnap) (us : List (Upstream Limiter))
      → All (λ v. (s.name == v.name) ≡ false) us
      → AreFound snaps us
      → AreFound (s ∷ snaps) us
  unfolding find_snap
  found_behind s snaps [] other found = tt
  found_behind s snaps (u ∷ us) other found =
      (rw other.0 found.0, found_behind s snaps us other.1 found.1)

  pub snaps-AreFound :
      (us : List (Upstream Limiter)) → HaveDistinctNames us → AreFound (map snap_of us) us
  unfolding find_snap snap_of
  snaps-AreFound [] d = tt
  snaps-AreFound (u ∷ us) d = (
    rw (==_refl u.name) refl,
    found_behind (snap_of u) (map snap_of us) us d.0 (snaps-AreFound us d.1),
  )

  -- A key with the lifetime counters and the day's baseline of another.
  abbrev pub taking_over : Upstream Limiter → Upstream Limiter → Upstream Limiter
  taking_over f u = record f {
    credits_total = u.credits_total;
    requests_ok = u.requests_ok;
    requests_rate_limited = u.requests_rate_limited;
    requests_error = u.requests_error;
    rate_limit_hits = u.rate_limit_hits;
    day_start_total = u.day_start_total;
  }

  pub restore_key-found :
      (snaps : List UpstreamSnap) (f u : Upstream Limiter)
      → f.name ≡ u.name
      → find_snap snaps u.name ≡ some (snap_of u)
      → (restore_key snaps f ≡ taking_over f u) × (used_in snaps f.name ≡ u.credits_used)
  unfolding restore_key used_in restore_day_start restore_lifetime snap_of
  restore_key-found snaps f u same found =
      let hit = ap (find_snap snaps) same ∙ found in (ground (arith, hit), ground (arith, hit))

  -- Every key of a list takes over from the key of its name.
  abbrev pub all_taking_over :
      List (Upstream Limiter) → List (Upstream Limiter) → List (Upstream Limiter)
  all_taking_over [] us = []
  all_taking_over (f ∷ fs) [] = []
  all_taking_over (f ∷ fs) (u ∷ us) = taking_over f u ∷ all_taking_over fs us

  pub restore_keys :
      (snaps : List UpstreamSnap) (fs us : List (Upstream Limiter))
      → HaveSameNames fs us
      → AreFound snaps us
      → map (restore_key snaps) fs ≡ all_taking_over fs us
  restore_keys snaps [] [] same found = refl
  restore_keys snaps [] (u ∷ us) same found = absurd same
  restore_keys snaps (f ∷ fs) [] same found = absurd same
  restore_keys snaps (f ∷ fs) (u ∷ us) same found =
      let head = (restore_key-found snaps f u same.0 found.0).0 in
      let tail = restore_keys snaps fs us same.1 found.1 in rw (head, tail)

  -- With the monthly counters too, the keys have the entries of the running ones.
  pub restore_monthly-snaps :
      (snaps : List UpstreamSnap) (month : ℕ) (fs us : List (Upstream Limiter))
      → HaveSameNames fs us
      → AreFound snaps us
      → map snap_of
          (map (λ up. restore_monthly month (used_in snaps up.name) up) (all_taking_over fs us))
        ≡ map snap_of us
  unfolding snap_of restore_monthly
  restore_monthly-snaps snaps month [] [] same found = refl
  restore_monthly-snaps snaps month [] (u ∷ us) same found = absurd same
  restore_monthly-snaps snaps month (f ∷ fs) [] same found = absurd same
  restore_monthly-snaps snaps month (f ∷ fs) (u ∷ us) same found =
      let used = (restore_key-found snaps f u same.0 found.0).1 in
      let tail = restore_monthly-snaps snaps month fs us same.1 found.1 in rw (used, same.0, tail)

module _ {Limiter : Type 0} where
  -- In the month and on the day of the snapshot, the calendar closes nothing.
  pub apply_snapshot-same :
      (pool : Pool Limiter) (s : Stats) (snap : Snapshot) (retention : ℕ)
      → apply_snapshot pool s snap snap.epoch_yyyymm snap.current_day retention ≡ (
        record pool {
          upstreams =
              map
                (λ up. restore_monthly snap.epoch_yyyymm (used_in snap.upstreams up.name) up)
                (map (restore_key snap.upstreams) pool.upstreams);
        },
        record s {
          all_exhausted = snap.all_exhausted;
          methods = snap.methods;
          history = snap.history;
          daily_history = snap.daily_history;
        },
      )
  unfolding apply_snapshot apply_monthly apply_daily
  apply_snapshot-same pool s snap retention =
      let month : (snap.epoch_yyyymm == snap.epoch_yyyymm) ≡ true = ==_refl snap.epoch_yyyymm in
      let day : (snap.current_day == snap.current_day) ≡ true = ==_refl snap.current_day in
      rw (month, day) refl

-- A boot in the month and on the day of the snapshot, into keys of the same distinct names, brings back
-- the statistics, and every durable counter of every key: its name, the credits used this month and ever, the
-- outcomes of its requests, its rate limit hits and the day's baseline.
pub restore_into-capture :
    {Limiter : Type 0} (fresh running : Pool Limiter) (s blank : Stats) (cfg : PersistenceConfig)
    (from_slice : List ℕ → Option Snapshot) (file : List ℕ) (saved : ℕ)
    → HaveSameNames fresh.upstreams running.upstreams
    → HaveDistinctNames running.upstreams
    → from_slice file ≡ some (capture running s saved)
    → let (p', s', _) =
        restore_into from_slice (bytes file) s.current_month s.current_day fresh blank cfg in
      (map counters p'.upstreams ≡ map counters running.upstreams) × (s' ≡ s)
unfolding restore_into restore_loaded load capture
restore_into-capture fresh running s blank cfg from_slice file saved same distinct decoded =
    let snap = capture running s saved in
    let found = snaps-AreFound running.upstreams distinct in
    let keys = restore_keys snap.upstreams fresh.upstreams running.upstreams same found in
    let entries =
      restore_monthly-snaps snap.upstreams s.current_month fresh.upstreams running.upstreams same
        found in
    let booted =
      ap
        (λ o.
          restore_loaded fresh blank cfg (elim o [ some d ↦ snapshot d | none ↦ unreadable ])
            s.current_month s.current_day)
        decoded
      ∙ apply_snapshot-same fresh blank snap cfg.daily_retention_days in
    subst
      (λ r.
        (map counters r.0.upstreams ≡ map counters running.upstreams)
        × (record r.1 { current_month = s.current_month; current_day = s.current_day } ≡ s))
      (sym booted)
      (
        snaps-counters _ running.upstreams (
            ap
              (λ ups. map snap_of (
                map (λ up. restore_monthly s.current_month (used_in snap.upstreams up.name) up)
                  ups))
              keys
            ∙ entries),
        refl,
      )
