-- ===== src/Persistence/Examples.antt =====
-- Tests and instances for src/persistence.rs.
use helius.Common.{ℕ, true, none, some, [], ◌∷◌, map, ◌≡◌, refl, arith, All}
use helius.Config.{UpstreamConfig, default_rps, default_persistence}
use helius.Ratelimit.Counting.{counting}
use helius.Upstream.{Upstream, from_config}
use helius.Pool.{Pool}
use helius.Stats.{Stats, new_stats}
use helius.Common.{List, Option, ◌⊎◌, inl, inr, string_eq}
use helius.Persistence.Snapshot.{Snapshot, snapshot, capture, bytes, failed, load}
use helius.Persistence.Counters.{counters}
use helius.Persistence.Restore.{restore_into}
use helius.Persistence.Roundtrip.{restore_into-capture}
use helius.Stats.{roll_month_if_changed, roll_day_if_changed}
use helius.Persistence.Entries.{periodless}
use helius.Persistence.Rollover.{restore_into-rollovers}
use helius.Persistence.Save.{make_parent, write_out, Disk, put, save, read_from}
use helius.Persistence.Crash.{load-save}
use helius.Persistence.Policy.{IsStarted, restore_into-unreadable}

abbrev key : UpstreamConfig
key = record { name = "a"; api_key = "k"; credit_cap = 100; enabled = true }

abbrev blank_key : Upstream ℕ
blank_key = from_config counting key default_rps

abbrev fresh : Pool ℕ
fresh = record { upstreams = blank_key ∷ record blank_key { name = "b" } ∷ []; cursor = 0 }

abbrev running : Pool ℕ
running = record {
  upstreams =
      record blank_key { credits_used = 30; credits_total = 75; day_start_total = 70 }
      ∷ record blank_key { name = "b"; credits_used = 2; credits_total = 9; requests_ok = 4 }
      ∷ [];
  cursor = 11;
}

abbrev june : Stats
june = record new_stats { current_month = 202606; current_day = 20260630; all_exhausted = 3 }

restore_into-capture_example :
    let (pool', s', _) =
      restore_into
        (λ b. some (capture running june 5))
        (bytes (b'{' ∷ []))
        202606
        20260630
        fresh
        new_stats
        default_persistence in
    (map counters pool'.upstreams ≡ map counters running.upstreams) × (s' ≡ june)
unfolding from_config
restore_into-capture_example =
    restore_into-capture fresh running june new_stats default_persistence
      (λ b. some (capture running june 5)) (b'{' ∷ []) 5 (refl, (refl, tt)) ((refl, tt), (tt, tt))
      refl

restore_into-unreadable_example :
    let (pool', s', _) =
      restore_into (λ b. none) failed 202606 20260630 fresh new_stats default_persistence in
    All (IsStarted default_persistence.on_snapshot_error 202606) pool'.upstreams
    × (s' ≡ record new_stats { current_month = 202606; current_day = 20260630 })
unfolding from_config load
restore_into-unreadable_example =
    restore_into-unreadable fresh new_stats default_persistence (λ b. none) failed 202606 20260630
      (omega arith, (omega arith, tt)) refl

-- The boot falls into the next month.
restore_into-rollovers_example :
    let (booted, s', _) =
      restore_into
        (λ b. some (capture running june 5))
        (bytes (b'{' ∷ []))
        202607
        20260701
        fresh
        new_stats
        default_persistence in
    let (t, rolled, _) = roll_month_if_changed running 202607 june in
    let (t', rolled') =
      roll_day_if_changed rolled 20260701 default_persistence.daily_retention_days t in
    (map counters booted.upstreams ≡ map counters rolled'.upstreams)
    × (periodless s' ≡ periodless t')
unfolding from_config
restore_into-rollovers_example =
    restore_into-rollovers fresh running june new_stats default_persistence
      (λ b. some (capture running june 5)) (b'{' ∷ []) 5 202607 20260701 (refl, (refl, tt))
      ((refl, tt), (tt, tt)) refl

abbrev to_vec : Snapshot → Option (List ℕ)
to_vec snap = some (1 ∷ 2 ∷ 3 ∷ [])

abbrev from_slice : List ℕ → Option Snapshot
from_slice b = some (capture running june 5)

abbrev empty_disk : Disk
empty_disk path = none

-- The disk after a write of the temporary file that was cut off.
abbrev torn_disk : Disk
torn_disk = put "s.json.tmp" (some (1 ∷ [])) empty_disk

load-save_example :
    (load from_slice (read_from torn_disk "s.json")
      ≡ load from_slice (read_from empty_disk "s.json"))
    ⊎ (load from_slice (read_from torn_disk "s.json") ≡ snapshot (capture running june 5))
unfolding save make_parent write_out
load-save_example =
    load-save "s.json.tmp" "s.json" refl from_slice to_vec none (capture running june 5) empty_disk
      torn_disk (λ b e. refl) (inr (inl (1 ∷ [], refl)))
