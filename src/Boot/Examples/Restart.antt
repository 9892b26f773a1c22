-- ===== src/Boot/Examples/Restart.antt =====
-- An instance of a start after a crash, a month later.
use helius.Common.{List, [], ◌∷◌, ◌≡◌, ◌⊎◌, refl, none, some, ℕ, Any}
use helius.Metrics.{Event}
use helius.Persistence.Snapshot.{Loaded, snapshot}
use helius.Persistence.{read_from}
use helius.Proxy.{AppState}
use helius.Boot.Start.{booted, boot, override_path}
use helius.Boot.Outcome.{first_state, boot_by_path}
use helius.Boot.Life.{found_on, snap_at}
use helius.Boot.Resume.{IsTaken, Continues, boot-Continues}
use helius.Boot.Examples.{
  config, config-IsUsable, setting, setting-IsSound, empty_disk, serving, saved_disk, one_life,
  Location,
}

abbrev in_april : AppState ℕ Location × List Event
in_april =
    first_state (record setting.out { read = read_from saved_disk }) 202604 20260401
      (override_path (some "s.json") config) ("/", [])

starts_again :
    boot (record setting.out { read = read_from saved_disk }) setting.cli none 202604 20260401
    ≡ booted in_april
starts_again =
    (boot_by_path (record setting.out { read = read_from saved_disk }) setting.cli none 202604
        20260401 in_april).1
      (
        config,
        refl,
        config-IsUsable,
        record { base = ("/", []); recorder = refl; client = refl; parsed = refl; gives = refl },
      )

abbrev may_find : List Loaded
may_find = snapshot (snap_at setting 9 serving) ∷ snapshot (snap_at setting 7 serving) ∷ []

boot-Continues_example :
    Any
      (λ found.
        (found_on setting saved_disk ≡ found)
        × ((found ≡ found_on setting empty_disk)
            ⊎ ((taken : IsTaken setting empty_disk found) × Continues setting 202604 20260401
                  in_april.0 taken.system.app)))
      may_find
unfolding override_path
boot-Continues_example =
    boot-Continues setting empty_disk saved_disk may_find 202604 20260401 in_april.0 in_april.1
      setting-IsSound (tt, tt) one_life starts_again
