-- ===== src/Persistence/UnitTests/Passes.antt =====
-- The runs of the unit tests of src/persistence.rs.
use helius.Common.{
  ℕ, String, Bool, true, false, ◌==◌, ==_refl, nat_eq, string_eq, Option, none, some, List, [], ◌∷◌,
  ◌≡◌, ◌≢◌, ap, ◌∙◌, arith, sum_u64, if◌then◌else◌,
}
use helius.Common.Map.{lookup, insert}
use helius.Ratelimit.{Governor}
use helius.Upstream.{
  add_credits, record_ok, restore_monthly, restore_lifetime, restore_day_start, start_new_day,
  from_config as upstream_from_config,
}
use helius.Pool.{Pool, from_config, find_by_name}
use helius.Stats.{Stats, new_stats, record_exhausted, total_of}
use helius.Persistence.Snapshot.{
  ReadResult, bytes, not_found, Snapshot, snapshot, capture, load, snap_of,
}
use helius.Persistence.Restore.{
  restore_into, restore_loaded, apply_snapshot, apply_monthly, apply_daily, restore_key, used_in,
  find_snap, closing_record,
}
use helius.Persistence.Save.{read_from}
use helius.Persistence.Crash.{load-save_done}
use helius.Persistence.UnitTests.{
  Files, cfg, pcfg, has_all_fields, is_absent, is_restored, is_rolled, saved, pool, charged,
  save_then_load_roundtrips_all_fields, missing_file_is_none, same_month, restores,
  restore_same_month_restores_usage_and_lifetime, old_month,
  restore_old_month_keeps_lifetime_and_records_history,
}

-- The codec reads a snapshot back, and the temporary file is another.
record ReadsBack (f : Files) (snap : Snapshot) : Type 0 where
  file : List ℕ
  encoded : f.to_vec snap ≡ some file
  decoded : f.from_slice file ≡ some snap
  apart : (f.path == f.tmp) ≡ false

loads :
    (f : Files) (snap : Snapshot)
    → ReadsBack f snap
    → load f.from_slice (read_from (saved f snap) f.path) ≡ snapshot snap
loads f snap r =
    load-save_done f.tmp f.path r.apart f.from_slice f.to_vec f.parent snap r.file f.disk r.encoded
      r.decoded

bundle : Unit {0}
unfolding pool cfg pcfg from_config upstream_from_config add_credits record_ok record_exhausted
    capture snap_of insert lookup find_by_name
bundle = tt

restoring : Unit {0}
unfolding apply_snapshot apply_monthly apply_daily restore_key used_in find_snap closing_record
    restore_monthly restore_lifetime restore_day_start start_new_day total_of sum_u64
restoring = tt

module _ {Limiter : Type 0} (g : Governor Limiter) (f : Files) where
  save_then_load_passes :
      ReadsBack f (charged g f) → save_then_load_roundtrips_all_fields g f ≡ true
  unfolding save_then_load_roundtrips_all_fields bundle
  save_then_load_passes r = ap has_all_fields (loads f (charged g f) r)

  missing_file_passes : missing_file_is_none g f ≡ true
  unfolding missing_file_is_none load
  missing_file_passes =
      let reads : Option (List ℕ) → Bool = λ file. is_absent (
        load f.from_slice
          (elim file as (λ x. ReadResult) [ some b ↦ bytes b | none ↦ not_found ])) in
      ap (λ c. reads (if c then none else f.disk f.path)) (==_refl f.path)

  -- A restore of what was saved, for what a test asserts of it.
  restores_saved :
      (cur_month cur_day : ℕ) (names : List String) (snap : Snapshot)
      (asserts : Pool Limiter × Stats → Bool)
      → ReadsBack f snap
      → asserts (restores g f cur_month cur_day names snap)
        ≡ asserts (
            let (p, s) = apply_snapshot (pool g f names) new_stats snap cur_month cur_day 90 in
            (p, record s { current_month = cur_month; current_day = cur_day }))
  unfolding restore_into restore_loaded pcfg
  restores_saved cur_month cur_day names snap asserts r =
      ap
        (λ v.
          let (p, s) =
            restore_loaded (pool g f names) new_stats (pcfg f.path) v cur_month cur_day in
          asserts (p, record s { current_month = cur_month; current_day = cur_day }))
        (loads f snap r)

  restore_same_month_passes :
      (cur_month cur_day : ℕ)
      → ReadsBack f (same_month g f cur_month)
      → restore_same_month_restores_usage_and_lifetime g f cur_month cur_day ≡ true
  unfolding restore_same_month_restores_usage_and_lifetime bundle restoring
  restore_same_month_passes cur_month cur_day r =
      let now : (cur_month == cur_month) ≡ true = ==_refl cur_month in
      restores_saved cur_month cur_day ("a" ∷ "b" ∷ []) (same_month g f cur_month) is_restored r
      ∙ rw now (ground arith)

  restore_old_month_passes :
      (cur_month cur_day : ℕ)
      → cur_month ≢ 200001
      → ReadsBack f (old_month g f)
      → restore_old_month_keeps_lifetime_and_records_history g f cur_month cur_day ≡ true
  unfolding restore_old_month_keeps_lifetime_and_records_history bundle restoring
  restore_old_month_passes cur_month cur_day later r =
      restores_saved cur_month cur_day ("a" ∷ []) (old_month g f) (is_rolled cur_month) r
      ∙ ground arith
