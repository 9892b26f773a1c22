-- ===== src/Boot/Resume.antt =====
-- A start after the end of a process resumes its counters.
use helius.Common.{
  ℕ, String, Option, none, some, List, map, ◌≡◌, refl, ap, sym, subst, ◌∙◌, string_eq, Any,
  Any-mono, Any-All, All, ◌⊎◌, inl, inr,
}
use mathlib.Core.Option.{some-injective}
use helius.Metrics.{Event}
use helius.Pool.Names.{AreDistinct, from_config-names}
use helius.Stats.{new_stats, roll_month_if_changed, roll_day_if_changed}
use helius.Persistence.Snapshot.{Loaded, snapshot, snap_of}
use helius.Persistence.{Disk, read_from, restore_into, restore_loaded}
use helius.Persistence.Counters.{counters, snaps-counters}
use helius.Persistence.Entries.{periodless}
use helius.Persistence.Names.{
  restore_into-names, names-HaveSameNames, AreDistinct-HaveDistinctNames,
}
use helius.Persistence.Rollover.{apply_snapshot-rollovers}
use helius.Proxy.{AppState, new_state}
use helius.Serving.System.{System}
use helius.Serving.Names.{app_names, step-names}
use helius.Boot.Start.{override_path, booted, boot, after_restore}
use helius.Boot.Outcome.{boot_by_path}
use helius.Boot.Durable.{found-Life}
use helius.Boot.Life.{
  Setting, IsSound, Life, off, started, moved, saved, cut_off, died, in_force, found_on, snap_at,
}

module _ {Limiter Url : Type 0} (g : Setting Limiter Url) where
  abbrev pub configured : List String
  configured = map (λ c. c.name) (in_force g).upstreams

  -- A state whose durable counters are those that another would have after the two rollovers.
  pub record Continues (m d : ℕ) (app s : AppState Limiter Url) : Type 0 where
    pub keys :
        let (t, rolled, _) = roll_month_if_changed s.pool m s.stats in
        let (_, rolled') =
          roll_day_if_changed rolled d (in_force g).persistence.daily_retention_days t in
        map counters app.pool.upstreams ≡ map counters rolled'.upstreams
    pub stats :
        let (t, rolled, _) = roll_month_if_changed s.pool m s.stats in
        let (t', _) =
          roll_day_if_changed rolled d (in_force g).persistence.daily_retention_days t in
        periodless app.stats ≡ periodless t'
    pub month : app.stats.current_month ≡ m
    pub day : app.stats.current_day ≡ d

  -- A snapshot was taken from a process of a life on the same first disk.
  pub record IsTaken (first : Disk) (found : Loaded) : Type 0 where
    pub system : System Limiter Url
    pub disk : Disk
    pub may : List Loaded
    pub lived : Life g first (some system) disk may
    pub now_ms : ℕ
    pub is : found ≡ snapshot (snap_at g now_ms system)

  -- The state that a start makes, before and after the restore.
  abbrev blank : Url → AppState Limiter Url
  blank base = new_state g.out.governor (in_force g) base

  abbrev loaded_into : Disk → (m d : ℕ) → Url → AppState Limiter Url × List Event
  loaded_into disk m d base =
      after_restore (record g.out { read = read_from disk }) m d (blank base)

  boot-state :
      (disk : Disk) (m d : ℕ) (app : AppState Limiter Url) (events : List Event)
      → IsSound g
      → boot (record g.out { read = read_from disk }) g.cli g.env m d ≡ booted (app, events)
      → (base : Url) × (app ≡ (loaded_into disk m d base).0)
  unfolding after_restore new_state
  boot-state disk m d app events sound h =
      let out = record g.out { read = read_from disk } in
      let (config, extracted, _, begun) = (boot_by_path out g.cli g.env m d (app, events)).0 h in
      let same = some-injective config g.config (sym extracted ∙ sound.extracted) in
      (
        begun.base,
        ap (λ r. r.0) begun.gives
            ∙ ap
                (λ c.
                  (after_restore out m d
                    (new_state g.out.governor (override_path g.cli.state c) begun.base)).0)
                same,
      )

  loaded_into-names :
      (disk : Disk) (m d : ℕ) (base : Url) → app_names (loaded_into disk m d base).0 ≡ configured
  unfolding after_restore new_state
  loaded_into-names disk m d base =
      restore_into-names g.out.from_slice (read_from disk (in_force g).persistence.path) m d
        (blank base).pool new_stats (in_force g).persistence
      ∙ from_config-names g.out.governor (in_force g).upstreams (in_force g).rps

  abbrev AreNamed : Option (System Limiter Url) → Type 0
  AreNamed none = Unit
  AreNamed (some s) = app_names s.app ≡ configured

  Life-AreNamed :
      {first disk : Disk} {process : Option (System Limiter Url)} {may : List Loaded}
      → IsSound g
      → Life g first process disk may
      → AreNamed process
  Life-AreNamed sound off = tt
  Life-AreNamed sound (started {disk} l m d app events h) =
      let (base, is) = boot-state disk m d app events sound h in
      ap app_names is ∙ loaded_into-names disk m d base
  Life-AreNamed sound (moved {s} l move) = step-names g.lib move s ∙ Life-AreNamed sound l
  Life-AreNamed sound (saved l now_ms b encoded) = Life-AreNamed sound l
  Life-AreNamed sound (cut_off l now_ms after left) = Life-AreNamed sound l
  Life-AreNamed sound (died l) = tt

  -- Every snapshot that a boot may find is the first one or was taken.
  origins :
      {first disk : Disk} {process : Option (System Limiter Url)} {may : List Loaded}
      → Life g first process disk may
      → All (λ found. (found ≡ found_on g first) ⊎ IsTaken first found) may
  origins off = (inl refl, tt)
  origins (started l m d app events h) = origins l
  origins (moved l move) = origins l
  origins {first} (saved {s} {disk} {may} l now_ms b encoded) = (
    inr (record { system = s; disk = disk; may = may; lived = l; now_ms = now_ms; is = refl }),
    tt,
  )
  origins (cut_off {s} {disk} {may} l now_ms after left) = (
    inr (record { system = s; disk = disk; may = may; lived = l; now_ms = now_ms; is = refl }),
    origins l,
  )
  origins (died l) = origins l

  loaded_into-Continues :
      (disk : Disk) (m d now_ms : ℕ) (base : Url) (s : System Limiter Url)
      → AreDistinct configured
      → app_names s.app ≡ configured
      → found_on g disk ≡ snapshot (snap_at g now_ms s)
      → Continues m d (loaded_into disk m d base).0 s.app
  unfolding after_restore new_state restore_into restore_loaded
  loaded_into-Continues disk m d now_ms base s distinct named found =
      let cfg = (in_force g).persistence in
      let fresh = (blank base).pool in
      let (t, rolled, _) = roll_month_if_changed s.app.pool m s.app.stats in
      let (t', rolled') = roll_day_if_changed rolled d cfg.daily_retention_days t in
      let same =
        names-HaveSameNames fresh.upstreams s.app.pool.upstreams
          (from_config-names g.out.governor (in_force g).upstreams (in_force g).rps ∙ sym named) in
      let apart =
        AreDistinct-HaveDistinctNames s.app.pool.upstreams
          (subst AreDistinct (sym named) distinct) in
      let (keys, stats) =
        subst
          (λ v.
            let r = restore_loaded fresh new_stats cfg v m d in
            (map snap_of r.0.upstreams ≡ map snap_of rolled'.upstreams)
            × (periodless r.1 ≡ periodless t'))
          (sym found)
          (apply_snapshot-rollovers fresh s.app.pool s.app.stats new_stats m d
            cfg.daily_retention_days now_ms same apart) in
      record {
        keys = snaps-counters (loaded_into disk m d base).0.pool.upstreams rolled'.upstreams keys;
        stats = stats;
        month = refl;
        day = refl;
      }

  -- What a start makes of the snapshot that it finds.
  resumed :
      (first disk : Disk) (m d : ℕ) (app : AppState Limiter Url) (events : List Event)
      (found : Loaded)
      → IsSound g
      → AreDistinct configured
      → boot (record g.out { read = read_from disk }) g.cli g.env m d ≡ booted (app, events)
      → found_on g disk ≡ found
      → (found ≡ found_on g first) ⊎ IsTaken first found
      → (found ≡ found_on g first)
        ⊎ ((taken : IsTaken first found) × Continues m d app taken.system.app)
  resumed first disk m d app events found sound distinct h e (inl old) = inl old
  resumed first disk m d app events found sound distinct h e (inr taken) =
      let (base, is) = boot-state disk m d app events sound h in
      inr (
        taken,
        subst (λ a. Continues m d a taken.system.app) (sym is)
            (loaded_into-Continues disk m d taken.now_ms base taken.system distinct
              (Life-AreNamed sound taken.lived) (e ∙ taken.is)),
      )

-- A start after the end of a process, at any time of a life, finds one of the snapshots that it may find,
-- and if that is not what the disk held at first, it was taken from a running process, and the start
-- resumes it: every durable counter of every key, and the statistics but for the two running periods, are
-- those that this process would have after its rollovers to the current month and day, in which the new one
-- runs. The keys of the configuration in force have distinct names, the decoder reads back what the encoder
-- gives, the temporary file has another path than the snapshot, and every start extracts the same
-- configuration.
pub boot-Continues :
    {Limiter Url : Type 0} (g : Setting Limiter Url) (first disk : Disk) (may : List Loaded)
    (m d : ℕ) (app : AppState Limiter Url) (events : List Event)
    → IsSound g
    → AreDistinct (configured g)
    → Life g first none disk may
    → boot (record g.out { read = read_from disk }) g.cli g.env m d ≡ booted (app, events)
    → Any
        (λ found.
          (found_on g disk ≡ found)
          × ((found ≡ found_on g first)
              ⊎ ((taken : IsTaken g first found) × Continues g m d app taken.system.app)))
        may
boot-Continues g first disk may m d app events sound distinct l h =
    let P = λ (found : Loaded). found_on g disk ≡ found in
    let Q = λ (found : Loaded). (found ≡ found_on g first) ⊎ IsTaken g first found in
    Any-mono (λ found. P found × Q found) _ may
      (λ found both.
        (both.0, resumed g first disk m d app events found sound distinct h both.0 both.1))
      (Any-All P Q may (found-Life g first disk none may sound l) (origins g l))
