-- ===== src/Pool/Examples.antt =====
-- Tests and instances for the pool of src/upstream.rs.
use helius.Common.{
  ℕ, zero, suc, true, none, length, length-map, map, List, subst, sym, ap, ◌∙◌, some, [], ◌∷◌, ◌≡◌,
  refl, arith, ◌+◌, ◌-◌, ◌*◌, ◌≤◌, ◌<◌, Any, All, min_by_key,
}
use helius.Common.Map.{lookup, insert}
use helius.Config.{UpstreamConfig, default_rps}
use helius.Credits.{standard_rpc}
use helius.Ratelimit.Counting.{counting}
use helius.Ratelimit.{build_limiters, insert as insert_bucket}
use helius.Upstream.{
  Upstream, from_config as upstream_from_config, has_quota_for, in_cooldown, try_acquire,
  cooldown_remaining_ms,
}
use helius.Pool.Select.{Pool, Request, select, try_key, skips}
use helius.Pool.View.{soonest_cooldown_secs, cooling}
use helius.Pool.Rotation.{visited}
use helius.Pool.Choice.{MayServe, AreCapped, select-some, select-none}
use helius.Pool.Fairness.{after, length-select, select-fair}
use helius.Pool.Waiting.{soonest_cooldown_secs-some}

abbrev key : UpstreamConfig
key = record { name = "a"; api_key = "k"; credit_cap = 100; enabled = true }

abbrev cold : Upstream ℕ
cold = upstream_from_config counting key default_rps

abbrev hot : Upstream ℕ
hot = record cold { name = "b"; cooldown_until = 2_500 }

abbrev two_keys : Pool ℕ
two_keys = record { upstreams = hot ∷ cold ∷ []; cursor = 4 }

abbrev hot_key : Pool ℕ
hot_key = record { upstreams = hot ∷ []; cursor = 0 }

abbrev request : Request ℕ
request = record {
  governor = counting;
  clock = λ off. off;
  class = standard_rpc;
  est_cost = 1;
  skip = [];
  now_ms = 1_000;
}

bundle : Unit {0}
unfolding select try_key skips has_quota_for in_cooldown try_acquire lookup insert
    upstream_from_config build_limiters insert_bucket
bundle = tt

-- The cursor points at the key in cooldown, so the other one serves.
second_key : (select request two_keys).0 ≡ some 1
unfolding bundle
second_key = refl

no_key : (select request hot_key).0 ≡ none
unfolding bundle
no_key = refl

two_keys-AreCapped : AreCapped two_keys.upstreams
unfolding upstream_from_config
two_keys-AreCapped = omega arith

hot_key-AreCapped : AreCapped hot_key.upstreams
unfolding upstream_from_config
hot_key-AreCapped = omega arith

select-some_example :
    (k : ℕ) × (k < 2)
    × (1 ≡ visited 2 4 k)
    × MayServe request k 1 two_keys.upstreams
    × ((j : ℕ) → j < k → ¬ MayServe request j (visited 2 4 j) two_keys.upstreams)
unfolding bundle
select-some_example =
    select-some request two_keys (select request two_keys).1 1 two_keys-AreCapped (omega arith) refl

select-none_example :
    (k : ℕ) × (k < 1) × (0 ≡ visited 1 0 k) × ¬ MayServe request k 0 hot_key.upstreams
unfolding bundle
select-none_example =
    select-none request hot_key (select request hot_key).1 0 hot_key-AreCapped (omega arith) refl
      (omega arith)

soonest_cooldown_secs-some_example :
    (1 ≤ 2)
    × Any
        (λ (u : Upstream ℕ). (1_000 < u.cooldown_until) × (u.cooldown_until ≤ 1_000 + 1000 * 2))
        two_keys.upstreams
    × All
        (λ (u : Upstream ℕ). 1_000 < u.cooldown_until → 1_000 + 1000 * (2 - 1) < u.cooldown_until)
        two_keys.upstreams
unfolding soonest_cooldown_secs min_by_key cooling cooldown_remaining_ms upstream_from_config
soonest_cooldown_secs-some_example = soonest_cooldown_secs-some 1_000 two_keys 2 refl

-- Between two selections every key is made anew.
abbrev renewed : ℕ → List (Upstream ℕ) → List (Upstream ℕ)
renewed k = map (λ _. cold)

abbrev cold_keys : Pool ℕ
cold_keys = record { upstreams = cold ∷ cold ∷ []; cursor = 4 }

renewed_twice : (ups : List (Upstream ℕ)) → length ups ≡ 2 → map (λ _. cold) ups ≡ cold ∷ cold ∷ []
renewed_twice [] h = absurd (omega arith)
renewed_twice (a ∷ []) h = absurd (omega arith)
renewed_twice (a ∷ b ∷ []) h = refl
renewed_twice (a ∷ b ∷ c ∷ ups) h = absurd (omega arith)

renewed_keys : (k : ℕ) → (after (λ _. request) renewed k cold_keys).upstreams ≡ cold ∷ cold ∷ []
unfolding after
renewed_keys zero = refl
renewed_keys (suc k) =
    renewed_twice (select request (after (λ _. request) renewed k cold_keys)).1.upstreams (
      length-select request (after (λ _. request) renewed k cold_keys) ∙ ap length (renewed_keys k))

cold_keys-AreCapped : AreCapped cold_keys.upstreams
unfolding upstream_from_config
cold_keys-AreCapped = omega arith

cold_serves : MayServe request 0 1 (cold ∷ cold ∷ [])
unfolding bundle
cold_serves = record {
  up = cold;
  found = refl;
  untried = refl;
  enabled = refl;
  quota = omega arith;
  cooled = omega arith;
  token = refl;
}

select-fair_example :
    (k : ℕ) × (k < 2) × ((select request (after (λ _. request) renewed k cold_keys)).0 ≡ some 1)
select-fair_example =
    select-fair (λ _. request) renewed cold_keys 1 (λ k ups. length-map (λ _. cold) ups)
      (omega arith) (omega arith) (λ k. subst AreCapped (sym (renewed_keys k)) cold_keys-AreCapped)
      (λ k turn. subst (MayServe request 0 1) (sym (renewed_keys k)) cold_serves)
