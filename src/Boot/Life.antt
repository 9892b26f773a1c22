-- ===== src/Boot/Life.antt =====
-- A gateway through its life: starts, moves of the running process, saves that complete or do not, and ends.
-- Saves follow one another.
use helius.Common.{ℕ, String, false, Option, none, some, List, [], ◌∷◌, ◌≡◌, ◌==◌, string_eq}
use helius.Config.{Config}
use helius.Metrics.{Event}
use helius.Persistence.Snapshot.{Snapshot, Loaded, snapshot, load, capture}
use helius.Persistence.{Disk, Effect, read_from, perform_all}
use helius.Persistence.Crash.{Leaves}
use helius.Proxy.{Libraries, AppState}
use helius.Serving.System.{System, Move, step}
use helius.Boot.Start.{Cli, config_path, override_path, booted, Outside, boot}
use helius.Boot.Background.{Paths, save_snapshot}

-- What stays the same through a life: the libraries, what `main` calls (the files aside), the functions on
-- paths, the encoder of snapshots, the command line, the environment, and the configuration that is extracted.
pub record Setting (Limiter Url : Type 0) : Type 0 where
  pub lib : Libraries Limiter Url
  pub out : Outside Limiter Url
  pub paths : Paths
  pub to_vec : Snapshot → Option (List ℕ)
  pub cli : Cli
  pub env : Option String
  pub config : Config

module _ {Limiter Url : Type 0} (g : Setting Limiter Url) where
  -- The configuration in force, the path of its snapshot, and what a boot finds there.
  abbrev pub in_force : Config
  in_force = override_path g.cli.state g.config

  abbrev pub snapshot_path : String
  snapshot_path = in_force.persistence.path

  abbrev pub found_on : Disk → Loaded
  found_on disk = load g.out.from_slice (read_from disk snapshot_path)

  -- The snapshot that a save writes.
  abbrev pub snap_at : ℕ → System Limiter Url → Snapshot
  snap_at now_ms s = capture s.app.pool s.app.stats now_ms

  abbrev pub saves : ℕ → System Limiter Url → List Effect
  saves now_ms s = save_snapshot g.paths g.to_vec s.app now_ms

  -- The running process, if there is one, the disk, and the snapshots that a boot may find: that of the
  -- last save that completed, or what was there at first, and those of the saves since that did not.
  pub data Life (first : Disk) : Option (System Limiter Url) → Disk → List Loaded → Type 0 where
    off : Life first none first (found_on first ∷ [])
    started :
        {disk : Disk} {may : List Loaded}
        → Life first none disk may
        → (cur_month cur_day : ℕ) (app : AppState Limiter Url) (events : List Event)
        → boot (record g.out { read = read_from disk }) g.cli g.env cur_month cur_day
          ≡ booted (app, events)
        → Life first (some (record { app = app; tasks = [] })) disk may
    moved :
        {s : System Limiter Url} {disk : Disk} {may : List Loaded}
        → Life first (some s) disk may
        → (m : Move Url) → Life first (some (step g.lib m s)) disk may
    saved :
        {s : System Limiter Url} {disk : Disk} {may : List Loaded}
        → Life first (some s) disk may
        → (now_ms : ℕ) (b : List ℕ) → g.to_vec (snap_at now_ms s) ≡ some b
        → Life first (some s) (perform_all (saves now_ms s) disk) (snapshot (snap_at now_ms s) ∷ [])
    cut_off :
        {s : System Limiter Url} {disk : Disk} {may : List Loaded}
        → Life first (some s) disk may
        → (now_ms : ℕ) (after : Disk) → Leaves (saves now_ms s) disk after
        → Life first (some s) after (snapshot (snap_at now_ms s) ∷ may)
    died :
        {s : System Limiter Url} {disk : Disk} {may : List Loaded}
        → Life first (some s) disk may
        → Life first none disk may

-- What the theorems on a life ask of its setting: the encoder gives bytes that the decoder reads back, the
-- temporary file has another path than the snapshot, and the configuration is what is extracted.
pub record IsSound {Limiter Url : Type 0} (g : Setting Limiter Url) : Type 0 where
  pub decodes :
      (snap : Snapshot) (b : List ℕ) → g.to_vec snap ≡ some b → g.out.from_slice b ≡ some snap
  pub apart : (snapshot_path g == g.paths.json_tmp (snapshot_path g)) ≡ false
  pub extracted : g.out.extract (config_path g.cli g.env) ≡ some g.config
