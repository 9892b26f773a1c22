-- ===== src/Persistence/Names.antt =====
-- A boot leaves the names of the keys alone, and its keys match those of a process by their names.
use helius.Common.{
  ap, some, ℕ, String, false, Option, List, [], ◌∷◌, map, ◌≡◌, refl, ◌∙◌, arith, All, ◌==◌, ==_refl,
  string_eq, nat_eq,
}
use helius.Config.{PersistenceConfig, SnapshotErrorPolicy, zero_usage, cap_usage}
use helius.Upstream.{Upstream, restore_monthly, restore_lifetime, restore_day_start, start_new_day}
use helius.Pool.{Pool}
use helius.Pool.Names.{names, names-map, AreDistinct}
use helius.Stats.{Stats}
use helius.Persistence.Snapshot.{
  snap_of, UpstreamSnap, Snapshot, ReadResult, Loaded, snapshot, absent, unreadable, load,
}
use helius.Persistence.Restore.{
  find_snap, used_in, restore_key, apply_monthly, apply_daily, apply_snapshot, start_empty,
  start_by_policy, restore_loaded, restore_into,
}
use helius.Persistence.Roundtrip.{restore_key-found, HaveSameNames, HaveDistinctNames}

module _ {Limiter : Type 0} where
  pub names-HaveSameNames :
      (fs us : List (Upstream Limiter)) → names fs ≡ names us → HaveSameNames fs us
  names-HaveSameNames [] [] e = tt
  names-HaveSameNames [] (u ∷ us) e = absurd (ground arith)
  names-HaveSameNames (f ∷ fs) [] e = absurd (ground arith)
  names-HaveSameNames (f ∷ fs) (u ∷ us) e =
      let tails : names fs ≡ names us = cc in (cc, names-HaveSameNames fs us tails)

  differs_from :
      (n : String) (us : List (Upstream Limiter))
      → All (λ m. (n == m) ≡ false) (names us)
      → All (λ u. (n == u.name) ≡ false) us
  differs_from n [] h = tt
  differs_from n (u ∷ us) h = (h.0, differs_from n us h.1)

  pub AreDistinct-HaveDistinctNames :
      (us : List (Upstream Limiter)) → AreDistinct (names us) → HaveDistinctNames us
  AreDistinct-HaveDistinctNames [] h = tt
  AreDistinct-HaveDistinctNames (u ∷ us) h =
      (differs_from u.name us h.0, AreDistinct-HaveDistinctNames us h.1)

  restore_key-name :
      (snaps : List UpstreamSnap) (u : Upstream Limiter) → (restore_key snaps u).name ≡ u.name
  unfolding restore_key restore_lifetime restore_day_start
  restore_key-name snaps u = ground arith

  apply_monthly-names :
      (snap : Snapshot) (m : ℕ) (ups : List (Upstream Limiter)) (s : Stats)
      → names (apply_monthly snap m (ups, s)).0 ≡ names ups
  unfolding apply_monthly restore_monthly
  apply_monthly-names snap m ups s = ground (
    arith,
    names-map (λ (up : Upstream Limiter). restore_monthly m (used_in snap.upstreams up.name) up) ups
        (λ u. refl),
    names-map (restore_monthly m 0) ups (λ u. refl),
  )

  apply_daily-names :
      (snap : Snapshot) (d retention cursor : ℕ) (ups : List (Upstream Limiter)) (s : Stats)
      → names (apply_daily snap d retention cursor (ups, s)).0 ≡ names ups
  unfolding apply_daily start_new_day
  apply_daily-names snap d retention cursor ups s =
      ground (arith, names-map start_new_day ups (λ u. refl))

  policy-name :
      (policy : SnapshotErrorPolicy) (m : ℕ) (u : Upstream Limiter)
      → (start_by_policy policy m u).name ≡ u.name
  unfolding start_by_policy start_new_day restore_monthly
  policy-name zero_usage m u = refl
  policy-name cap_usage m u = refl

  restore_loaded-names :
      (pool : Pool Limiter) (stats : Stats) (cfg : PersistenceConfig) (found : Loaded) (m d : ℕ)
      → names (restore_loaded pool stats cfg found m d).0.upstreams ≡ names pool.upstreams
  unfolding restore_loaded apply_snapshot start_empty start_new_day restore_monthly
  restore_loaded-names pool stats cfg (snapshot snap) m d =
      let start : Stats = record stats {
        all_exhausted = snap.all_exhausted;
        methods = snap.methods;
        history = snap.history;
        daily_history = snap.daily_history;
      } in
      let ups = map (restore_key snap.upstreams) pool.upstreams in
      let (ups', s') = apply_monthly snap m (ups, start) in
      apply_daily-names snap d cfg.daily_retention_days pool.cursor ups' s'
      ∙ apply_monthly-names snap m ups start
      ∙ names-map (restore_key snap.upstreams) pool.upstreams (restore_key-name snap.upstreams)
  restore_loaded-names pool stats cfg absent m d =
      names-map (start_empty m) pool.upstreams (λ u. refl)
  restore_loaded-names pool stats cfg unreadable m d =
      names-map (start_by_policy cfg.on_snapshot_error m) pool.upstreams
        (policy-name cfg.on_snapshot_error m)

  pub restore_into-names :
      (from_slice : List ℕ → Option Snapshot) (read : ReadResult) (m d : ℕ) (pool : Pool Limiter)
      (stats : Stats) (cfg : PersistenceConfig)
      → names (restore_into from_slice read m d pool stats cfg).0.upstreams ≡ names pool.upstreams
  unfolding restore_into
  restore_into-names from_slice read m d pool stats cfg =
      restore_loaded-names pool stats cfg (load from_slice read) m d

  -- A key gets the counters of the first entry of its name, also where that is the entry of another key.
  namesake-restored :
      (snaps : List UpstreamSnap) (f u : Upstream Limiter)
      → f.name ≡ u.name
      → ((restore_key (snap_of u ∷ snaps) f).credits_total ≡ u.credits_total)
        × (used_in (snap_of u ∷ snaps) f.name ≡ u.credits_used)
  unfolding find_snap snap_of
  namesake-restored snaps f u same =
      let first : find_snap (snap_of u ∷ snaps) u.name ≡ some (snap_of u) =
        rw (==_refl u.name) refl in
      let (restored, used) = restore_key-found (snap_of u ∷ snaps) f u same first in
      (ap (λ k. k.credits_total) restored, used)
