-- ===== src/Pool/UnitTests.antt =====
-- The unit tests of src/upstream.rs, as functions into Bool, for the keys' token buckets as an argument; they
-- run with the bucket that is never filled again. A test that unwraps an empty result is false.
use helius.Common.{
  ℕ, zero, suc, String, Bool, true, false, not, ◌&&◌, ◌+◌, ◌==◌, nat_eq, string_eq, Option, none,
  some, List, [], ◌∷◌, ◌≡◌, refl, if◌then◌else◌, get_elem?, modify, contains,
}
use Prim.Native.String.{◌++◌}
use helius.Common.Map.{lookup, insert}
use helius.Config.{UpstreamConfig, default_rps}
use helius.Credits.{MethodClass, standard_rpc, send_transaction}
use helius.Ratelimit.{
  Governor, build_limiters, insert as insert_bucket, backoff_with_jitter, backoff_base,
}
use helius.Ratelimit.Counting.{counting}
use helius.Upstream.{
  Upstream, from_config as upstream_from_config, has_quota_for, in_cooldown, try_acquire,
  trip_cooldown, add_credits, note_success, remaining_credits,
}
use helius.Pool.Select.{Pool, Request, from_config, select, try_key, skips}

abbrev now : ℕ
now = 1_000_000_000_000

abbrev is_some : Option ℕ → Bool
is_some (some idx) = true
is_some none = false

-- The number of different texts, as `sort`, `dedup` and `len` give it.
abbrev distinct : List String → ℕ
distinct [] = 0
distinct (n ∷ ns) = let rest = distinct ns in if contains ns n then rest else suc rest

unfoldable pub cfg_cap : (name : String) → (enabled : Bool) → (credit_cap : ℕ) → UpstreamConfig
cfg_cap name enabled credit_cap = record {
  name = name;
  api_key = "key-" ++ name;
  credit_cap = credit_cap;
  enabled = enabled;
}

unfoldable pub cfg : (name : String) → (enabled : Bool) → UpstreamConfig
unfolding cfg_cap
cfg name enabled = cfg_cap name enabled 1_000_000

module _ {Limiter : Type 0} (g : Governor Limiter) where
  unfoldable pub pool : List UpstreamConfig → Pool Limiter
  pool cfgs = from_config g cfgs default_rps

  -- The arguments of `select`; the buckets are asked at one time.
  abbrev asks : MethodClass → (est_cost : ℕ) → (skip : List ℕ) → (now_ms : ℕ) → Request Limiter
  asks class est_cost skip now_ms = record {
    governor = g;
    clock = λ off. 0;
    class = class;
    est_cost = est_cost;
    skip = skip;
    now_ms = now_ms;
  }

  -- `.unwrap().1.name`
  abbrev name_of : Option (Upstream Limiter) → Option String
  name_of (some up) = some up.name
  name_of none = none

  abbrev picked : Option ℕ × Pool Limiter → Option String
  picked (some idx, p) = name_of (get_elem? p.upstreams idx)
  picked (none, p) = none

  abbrev is_name : String → Option String → Bool
  is_name name (some n) = n == name
  is_name name none = false

  -- Selections after one another, and the names of their keys.
  abbrev picks : ℕ → Request Limiter → Pool Limiter → List String
  picks zero q p = []
  picks (suc n) q p =
      let r = select q p in
      let rest = picks n q r.1 in elim (picked r) [ some name ↦ name ∷ rest | none ↦ rest ]

  -- Every one of the selections gives the key of a name.
  abbrev always : ℕ → String → Request Limiter → Pool Limiter → Bool
  always zero name q p = true
  always (suc n) name q p =
      let r = select q p in let rest = always n name q r.1 in is_name name (picked r) && rest

  unfoldable pub select_cycles_all_enabled : Bool
  select_cycles_all_enabled =
      let p = pool (cfg "a" true ∷ cfg "b" true ∷ cfg "c" true ∷ []) in
      distinct (picks 3 (asks standard_rpc 1 [] now) p) == 3

  unfoldable pub select_skips_disabled : Bool
  select_skips_disabled =
      let p = pool (cfg "a" false ∷ cfg "b" true ∷ cfg "c" false ∷ []) in
      always 5 "b" (asks standard_rpc 1 [] now) p

  unfoldable pub select_skips_over_quota : Bool
  select_skips_over_quota =
      let p = pool (cfg_cap "a" true 5 ∷ cfg "b" true ∷ []) in
      always 6 "b" (asks standard_rpc 10 [] now) p

  unfoldable pub select_none_when_all_over_quota : Bool
  select_none_when_all_over_quota =
      let p = pool (cfg_cap "a" true 5 ∷ cfg_cap "b" true 5 ∷ []) in
      not (is_some (select (asks standard_rpc 10 [] now) p).0)

  abbrev differ : Option String → Option String → Bool
  differ (some a) (some b) = not (a == b)
  differ (some a) none = false
  differ none b = false

  -- The second selection of the next test, for the index of the first.
  abbrev skips_first : Option ℕ × Pool Limiter → Bool
  skips_first (some idx, p) =
      differ (picked (some idx, p)) (picked (select (asks standard_rpc 1 (idx ∷ []) now) p))
  skips_first (none, p) = false

  unfoldable pub select_honours_skip_set : Bool
  select_honours_skip_set =
      let p = pool (cfg "a" true ∷ cfg "b" true ∷ []) in
      skips_first (select (asks standard_rpc 1 [] now) p)

  unfoldable pub select_skips_cooldown : Bool
  select_skips_cooldown =
      let p = pool (cfg "a" true ∷ cfg "b" true ∷ []) in
      let tripped = record p {
        upstreams = modify 1 (trip_cooldown now) (modify 0 (trip_cooldown now) p.upstreams);
      } in
      let (found, p') = select (asks standard_rpc 1 [] now) tripped in
      not (is_some found) && is_some (select (asks standard_rpc 1 [] (now + 60_000)) p').0

  unfoldable pub send_transaction_limited_to_one_rps_then_skips : Bool
  send_transaction_limited_to_one_rps_then_skips =
      let p = pool (cfg "a" true ∷ []) in
      let (found, p') = select (asks send_transaction 1 [] now) p in
      is_some found && not (is_some (select (asks send_transaction 1 [] now) p').0)

  unfoldable pub add_credits_reduces_remaining : Bool
  add_credits_reduces_remaining =
      let up = upstream_from_config g (cfg_cap "a" true 100) default_rps in
      let up' = (add_credits 30 up).0 in
      (remaining_credits up == 100)
      && (remaining_credits up' == 70)
      && has_quota_for 70 up'
      && not (has_quota_for 71 up')

  unfoldable pub cooldown_and_recovery : Bool
  cooldown_and_recovery =
      let up = upstream_from_config g (cfg "a" true) default_rps in
      let tripped = trip_cooldown now up in
      let recovered = note_success tripped in
      not (in_cooldown now up)
      && in_cooldown now tripped
      && in_cooldown now recovered
      && not (in_cooldown (now + 60_000) recovered)

bundle : Unit {0}
unfolding pool cfg cfg_cap from_config select try_key skips has_quota_for in_cooldown try_acquire
    lookup insert upstream_from_config build_limiters insert_bucket trip_cooldown add_credits
    note_success remaining_credits backoff_with_jitter backoff_base
bundle = tt

select_cycles_all_enabled_passes : select_cycles_all_enabled counting ≡ true
unfolding bundle select_cycles_all_enabled
select_cycles_all_enabled_passes = refl

select_skips_disabled_passes : select_skips_disabled counting ≡ true
unfolding bundle select_skips_disabled
select_skips_disabled_passes = refl

select_skips_over_quota_passes : select_skips_over_quota counting ≡ true
unfolding bundle select_skips_over_quota
select_skips_over_quota_passes = refl

select_none_when_all_over_quota_passes : select_none_when_all_over_quota counting ≡ true
unfolding bundle select_none_when_all_over_quota
select_none_when_all_over_quota_passes = refl

select_honours_skip_set_passes : select_honours_skip_set counting ≡ true
unfolding bundle select_honours_skip_set
select_honours_skip_set_passes = refl

select_skips_cooldown_passes : select_skips_cooldown counting ≡ true
unfolding bundle select_skips_cooldown
select_skips_cooldown_passes = refl

send_transaction_limited_passes : send_transaction_limited_to_one_rps_then_skips counting ≡ true
unfolding bundle send_transaction_limited_to_one_rps_then_skips
send_transaction_limited_passes = refl

add_credits_reduces_remaining_passes :
    {Limiter : Type 0} (g : Governor Limiter) → add_credits_reduces_remaining g ≡ true
unfolding bundle add_credits_reduces_remaining
add_credits_reduces_remaining_passes g = refl

cooldown_and_recovery_passes :
    {Limiter : Type 0} (g : Governor Limiter) → cooldown_and_recovery g ≡ true
unfolding bundle cooldown_and_recovery
cooldown_and_recovery_passes g = refl
