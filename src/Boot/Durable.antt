-- ===== src/Boot/Durable.antt =====
-- No crash loses what a save has written.
use helius.Common.{
  ℕ, Option, none, some, List, ◌≡◌, refl, ap, sym, subst, ◌∙◌, string_eq, Any, inl, inr,
}
use mathlib.Core.Option.{some-injective}
use helius.Metrics.{Event}
use helius.Persistence.Snapshot.{Loaded}
use helius.Persistence.{Disk, read_from, perform_all, save}
use helius.Persistence.Crash.{Leaves, load-save, load-save_done}
use helius.Proxy.{AppState, new_state}
use helius.Serving.System.{System}
use helius.Serving.Fixed.{step-config}
use helius.Boot.Start.{override_path, booted, boot, after_restore}
use helius.Boot.Background.{save_snapshot}
use helius.Boot.Outcome.{boot_by_path}
use helius.Boot.Life.{
  Setting, IsSound, Life, off, started, moved, saved, cut_off, died, in_force, snapshot_path,
  found_on, snap_at, saves,
}

module _ {Limiter Url : Type 0} (g : Setting Limiter Url) (sound : IsSound g) where
  -- The configuration of the running process, if there is one.
  abbrev IsConfigured : Option (System Limiter Url) → Type 0
  IsConfigured none = Unit
  IsConfigured (some s) = s.app.config ≡ in_force g

  -- A process that starts runs with the configuration in force.
  pub boot-config :
      (disk : Disk) (cur_month cur_day : ℕ) (app : AppState Limiter Url) (events : List Event)
      → boot (record g.out { read = read_from disk }) g.cli g.env cur_month cur_day
        ≡ booted (app, events)
      → app.config ≡ in_force g
  unfolding after_restore new_state
  boot-config disk cur_month cur_day app events h =
      let out = record g.out { read = read_from disk } in
      let (config, extracted, _, begun) =
        (boot_by_path out g.cli g.env cur_month cur_day (app, events)).0 h in
      let same = some-injective config g.config (sym extracted ∙ sound.extracted) in
      ap (λ r. r.0.config) begun.gives ∙ ap (λ c. override_path g.cli.state c) same

  running-config :
      {first disk : Disk} {process : Option (System Limiter Url)} {may : List Loaded}
      → Life g first process disk may
      → IsConfigured process
  running-config off = tt
  running-config (started {disk} l cur_month cur_day app events h) =
      boot-config disk cur_month cur_day app events h
  running-config (moved {s} l m) = step-config g.lib m s ∙ running-config l
  running-config (saved l now_ms b encoded) = running-config l
  running-config (cut_off l now_ms after left) = running-config l
  running-config (died l) = tt

  saves-in_force :
      (now_ms : ℕ) (s : System Limiter Url)
      → s.app.config ≡ in_force g
      → saves g now_ms s
        ≡ save g.to_vec
            (g.paths.parent (snapshot_path g))
            (g.paths.json_tmp (snapshot_path g))
            (snapshot_path g)
            (snap_at g now_ms s)
  unfolding save_snapshot
  saves-in_force now_ms s same =
      ap
        (λ c.
          save g.to_vec (g.paths.parent c.persistence.path) (g.paths.json_tmp c.persistence.path)
            c.persistence.path (snap_at g now_ms s))
        same

  durable_after :
      {first disk : Disk} {process : Option (System Limiter Url)} {may : List Loaded}
      → Life g first process disk may
      → Any (λ found. found_on g disk ≡ found) may
  durable_after off = inl refl
  durable_after (started l cur_month cur_day app events h) = durable_after l
  durable_after (moved l m) = durable_after l
  durable_after (saved {s} {disk} l now_ms b encoded) = inl (
      ap (λ es. found_on g (perform_all es disk)) (saves-in_force now_ms s (running-config l))
      ∙ load-save_done (g.paths.json_tmp (snapshot_path g)) (snapshot_path g) sound.apart
          g.out.from_slice g.to_vec (g.paths.parent (snapshot_path g)) (snap_at g now_ms s) b disk
          encoded (sound.decodes (snap_at g now_ms s) b encoded))
  durable_after (cut_off {s} {disk} {may} l now_ms after left) =
      let calls =
        subst (λ es. Leaves es disk after) (saves-in_force now_ms s (running-config l)) left in
      elim (load-save (g.paths.json_tmp (snapshot_path g)) (snapshot_path g) sound.apart
        g.out.from_slice g.to_vec (g.paths.parent (snapshot_path g)) (snap_at g now_ms s) disk after
        (sound.decodes (snap_at g now_ms s)) calls) [
          | inl same ↦ inr (subst (λ v. Any (λ found. v ≡ found) may) (sym same) (durable_after l))
          | inr new ↦ inl new
        ]
  durable_after (died l) = durable_after l

-- At every time of a life, through starts, moves in any order, saves that complete, that fail or that a crash
-- cuts off, and crashes, a boot finds the snapshot of the last save that completed, or of a save since that
-- did not; before the first one that completed, possibly what the disk held at first. The decoder reads back what
-- the encoder gives, the temporary file has another path than the snapshot, and every start extracts the same
-- configuration.
pub found-Life :
    {Limiter Url : Type 0} (g : Setting Limiter Url) (first disk : Disk)
    (process : Option (System Limiter Url)) (may : List Loaded)
    → IsSound g
    → Life g first process disk may
    → Any (λ found. found_on g disk ≡ found) may
found-Life g first disk process may sound l = durable_after g sound l
