-- ===== src/Persistence/Rollover.antt =====
-- A restart across a month or a day boundary, beside the rollovers of src/stats.rs in a process that
-- runs on.
use helius.Common.{
  ℕ, true, Option, none, some, List, [], ◌∷◌, ◌++◌, map, ◌≡◌, refl, ap, sym, subst, ◌∙◌, arith,
  ◌==◌, ==_refl, nat_eq, string_eq, inl, inr, Bool-cases,
}
use helius.Config.{PersistenceConfig}
use helius.Upstream.{Upstream}
use helius.Pool.{Pool}
use helius.Stats.{
  Stats, capture_month, capture_day, push_daily, roll_month_from, roll_month_if_changed,
  roll_day_from, roll_day_if_changed,
}
use helius.Persistence.Snapshot.{Snapshot, capture, bytes, snapshot, unreadable, load}
use helius.Persistence.Counters.{counters, snaps-counters}
use helius.Persistence.Restore.{
  closing_record, apply_monthly, apply_daily, apply_snapshot, restore_loaded, restore_into,
}
use helius.Persistence.Roundtrip.{
  HaveSameNames, HaveDistinctNames, snaps-AreFound, all_taking_over, restore_keys,
  restore_monthly-snaps,
}
use helius.Persistence.Entries.{
  new_day, periodless, snaps, capture_month-snaps, capture_day_same, start_new_day-snaps,
  reset_monthly-snaps, taken_over-snaps,
}

module _ {Limiter : Type 0} where
  module _ (fresh running : List (Upstream Limiter)) (s blank : Stats)
      (cursor m d retention saved : ℕ) where
    -- The statistics of a boot before the calendar is looked at.
    abbrev restored : Stats
    restored = record blank {
      all_exhausted = s.all_exhausted;
      methods = s.methods;
      history = s.history;
      daily_history = s.daily_history;
    }

    abbrev pool : Pool Limiter
    pool = record { upstreams = running; cursor = cursor }

    abbrev snap : Snapshot
    snap = capture pool s saved

    closing_record-capture : closing_record snap ≡ capture_month pool s.current_month
    unfolding closing_record capture
    closing_record-capture = sym (capture_month-snaps pool s.current_month)

    month_same :
        HaveSameNames fresh running
        → HaveDistinctNames running
        → let (ups, t) = apply_monthly snap m (all_taking_over fresh running, restored) in
          let (t', p, _) = roll_month_from s.current_month pool m s in
          (snaps ups ≡ snaps p.upstreams) × (periodless t ≡ periodless t')
    unfolding apply_monthly roll_month_from capture
    month_same same distinct =
        let refl_month : (s.current_month == s.current_month) ≡ true = ==_refl s.current_month in
        elim (Bool-cases (s.current_month == m)) [
          | inl e ↦
              let keys =
                restore_monthly-snaps (snaps running) m fresh running same
                  (snaps-AreFound running distinct) in
              rw e (keys, refl)
          | inr e ↦
              let keys =
                taken_over-snaps m fresh running same ∙ sym (reset_monthly-snaps m running) in
              let zero_cases = Bool-cases (s.current_month == 0) in
              rw (e, refl_month)
                (
                  keys,
                  elim zero_cases [
                    | inl z ↦ rw z refl
                    | inr nz ↦ rw nz (
                        ap (λ r. record (periodless s) { history = s.history ++ r ∷ [] })
                          closing_record-capture)
                  ],
                )
        ]

-- The day's part, for keys that a snapshot does not tell apart.
module _ {Limiter : Type 0} (boots goes : List (Upstream Limiter))
    (same : snaps boots ≡ snaps goes) where
  day_same :
      (snap : Snapshot) (t t' : Stats) (c c' d retention : ℕ)
      → snap.current_day ≡ t'.current_day
      → periodless t ≡ periodless t'
      → let (ups, r) = apply_daily snap d retention c (boots, t) in
        let (r', p) =
          roll_day_from t'.current_day (record { upstreams = goes; cursor = c' }) d retention t' in
        (snaps ups ≡ snaps p.upstreams) × (periodless r ≡ periodless r')
  unfolding apply_daily roll_day_from push_daily
  day_same snap t t' c c' d retention prev e =
      let keys =
        start_new_day-snaps boots ∙ ap (map new_day) same ∙ sym (start_new_day-snaps goes) in
      let closed =
        capture_day_same (record { upstreams = boots; cursor = c })
          (record { upstreams = goes; cursor = c' }) same t'.current_day in
      let pushed =
        ap (λ r. periodless (push_daily r retention t)) closed
        ∙ ap
            (λ u.
              push_daily (capture_day (record { upstreams = goes; cursor = c' }) t'.current_day)
                retention u)
            e in
      let refl_day : (t'.current_day == t'.current_day) ≡ true = ==_refl t'.current_day in
      elim (Bool-cases (t'.current_day == d)) [
        | inl same_day ↦ rw (prev, same_day) (same, e)
        | inr other ↦ elim (Bool-cases (t'.current_day == 0)) [
          | inl z ↦ rw (prev, other, refl_day, z) (keys, e)
          | inr nz ↦ rw (prev, other, refl_day, nz) (keys, pushed)
        ]
      ]

roll_month-current_day :
    {Limiter : Type 0} (prev m : ℕ) (p : Pool Limiter) (s : Stats)
    → s.current_day ≡ (roll_month_from prev p m s).0.current_day
unfolding roll_month_from
roll_month-current_day prev m p s = ground arith

pub apply_snapshot-rollovers :
    {Limiter : Type 0} (fresh running : Pool Limiter) (s blank : Stats) (m d retention saved : ℕ)
    → HaveSameNames fresh.upstreams running.upstreams
    → HaveDistinctNames running.upstreams
    → let (booted, s') = apply_snapshot fresh blank (capture running s saved) m d retention in
      let (t, rolled, _) = roll_month_if_changed running m s in
      let (t', rolled') = roll_day_if_changed rolled d retention t in
      (snaps booted.upstreams ≡ snaps rolled'.upstreams) × (periodless s' ≡ periodless t')
unfolding apply_snapshot roll_month_if_changed roll_day_if_changed capture
apply_snapshot-rollovers fresh running s blank m d retention saved same distinct =
    let snap = capture running s saved in
    let start : Stats = record blank {
      all_exhausted = s.all_exhausted;
      methods = s.methods;
      history = s.history;
      daily_history = s.daily_history;
    } in
    let keys =
      restore_keys (snaps running.upstreams) fresh.upstreams running.upstreams same
        (snaps-AreFound running.upstreams distinct) in
    let (t, rolled, _) = roll_month_from s.current_month running m s in
    let (t', rolled') = roll_day_from t.current_day rolled d retention t in
    let month =
      month_same fresh.upstreams running.upstreams s blank running.cursor m d retention saved same
        distinct in
    let booted = apply_monthly snap m (all_taking_over fresh.upstreams running.upstreams, start) in
    subst
      (λ ups.
        let r = apply_daily snap d retention fresh.cursor (apply_monthly snap m (ups, start)) in
        (snaps r.0 ≡ snaps rolled'.upstreams) × (periodless r.1 ≡ periodless t'))
      (sym keys)
      (day_same booted.0 rolled.upstreams month.0 snap booted.1 t fresh.cursor rolled.cursor d
        retention (roll_month-current_day s.current_month m running s) month.1)

-- A restart from a snapshot, into keys of the same distinct names, is like the month rollover and then the
-- day rollover in a process that runs on: it leaves the same durable counters of every key, and the same
-- statistics but for the two running periods, in whatever month and on whatever day it boots.
pub restore_into-rollovers :
    {Limiter : Type 0} (fresh running : Pool Limiter) (s blank : Stats) (cfg : PersistenceConfig)
    (from_slice : List ℕ → Option Snapshot) (file : List ℕ) (saved cur_month cur_day : ℕ)
    → HaveSameNames fresh.upstreams running.upstreams
    → HaveDistinctNames running.upstreams
    → from_slice file ≡ some (capture running s saved)
    → let (booted, s', _) =
        restore_into from_slice (bytes file) cur_month cur_day fresh blank cfg in
      let (t, rolled, _) = roll_month_if_changed running cur_month s in
      let (t', rolled') = roll_day_if_changed rolled cur_day cfg.daily_retention_days t in
      (map counters booted.upstreams ≡ map counters rolled'.upstreams)
      × (periodless s' ≡ periodless t')
unfolding restore_into restore_loaded load
restore_into-rollovers fresh running s blank cfg from_slice file saved cur_month cur_day same
      distinct decoded =
    let (t, rolled, _) = roll_month_if_changed running cur_month s in
    let (t', rolled') = roll_day_if_changed rolled cur_day cfg.daily_retention_days t in
    let booted = restore_loaded fresh blank cfg (load from_slice (bytes file)) cur_month cur_day in
    let (keys, stats) =
      subst
        (λ o.
          let r =
            restore_loaded fresh blank cfg
              (elim o [ some found ↦ snapshot found | none ↦ unreadable ]) cur_month cur_day in
          (snaps r.0.upstreams ≡ snaps rolled'.upstreams) × (periodless r.1 ≡ periodless t'))
        (sym decoded)
        (apply_snapshot-rollovers fresh running s blank cur_month cur_day cfg.daily_retention_days
          saved same distinct) in
    (snaps-counters booted.0.upstreams rolled'.upstreams keys, stats)
