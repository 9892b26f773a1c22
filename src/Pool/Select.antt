-- ===== src/Pool/Select.antt =====
-- `Pool` and `Pool::select` of src/upstream.rs. The scan runs in one step: a concurrent request may
-- change a key between two visits, which is not part of this file. The selected key is given by its
-- index, where the source also hands out the key's `Arc`.
use helius.Common.{
  ℕ, zero, suc, Bool, false, not, ◌||◌, Option, none, some, List, map, ◌%◌, if◌then◌else◌, ◌==◌,
  nat_eq, length, get_elem?, set, contains, add_u64,
}
use helius.Config.{RpsConfig, UpstreamConfig}
use helius.Credits.{MethodClass}
use helius.Ratelimit.{Governor}
use helius.Upstream.{
  Upstream, from_config as upstream_from_config, has_quota_for, in_cooldown, try_acquire,
}

pub record Pool (Limiter : Type 0) : Type 0 where
  pub upstreams : List (Upstream Limiter)
  pub cursor : ℕ

module _ {Limiter : Type 0} (g : Governor Limiter) where
  unfoldable pub from_config : List UpstreamConfig → RpsConfig → Pool Limiter
  from_config cfgs rps = record {
    upstreams = map (λ c. upstream_from_config g c rps) cfgs;
    cursor = 0;
  }

-- The tests that come before the token bucket's: the key is enabled, has quota, and is not cooling.
unfoldable pub skips : {Limiter : Type 0} → ℕ → ℕ → Upstream Limiter → Bool
skips est_cost now_ms up =
    not up.enabled || not (has_quota_for est_cost up) || in_cooldown now_ms up

-- What the loop keeps fixed: the governor, its clock as a function of the position in the scan, the
-- class, the cost, the indices to leave out and the time.
pub record Request (Limiter : Type 0) : Type 0 where
  pub governor : Governor Limiter
  pub clock : ℕ → ℕ
  pub class : MethodClass
  pub est_cost : ℕ
  pub skip : List ℕ
  pub now_ms : ℕ

module _ {Limiter : Type 0} (q : Request Limiter) where
  -- One round at an index: whether the key is taken, and the keys afterwards. An index out of range,
  -- where the source would panic, takes no key; `scan` never asks for one.
  unfoldable pub try_key : (off idx : ℕ) → List (Upstream Limiter) → Bool × List (Upstream Limiter)
  try_key off idx ups = if contains q.skip idx then (false, ups) else elim (get_elem? ups idx) [
    | none ↦ (false, ups)
    | some up ↦
        if skips q.est_cost q.now_ms up
        then (false, ups)
        else (let (granted, up') = try_acquire q.governor (q.clock off) q.class up in
            (granted, set ups idx up'))
  ]

  -- `for off in 0..n` from `off` on, with `left` rounds to go.
  unfoldable pub scan :
      (left n base off : ℕ) → List (Upstream Limiter) → Option ℕ × List (Upstream Limiter)
  scan zero n base off ups = (none, ups)
  scan (suc left) n base off ups =
      let idx = add_u64 base off % n in
      let (taken, ups') = try_key off idx ups in
      let rest = scan left n base (suc off) ups' in if taken then (some idx, ups') else rest

  unfoldable pub select : Pool Limiter → Option ℕ × Pool Limiter
  unfolding scan
  select p =
      let n = length p.upstreams in
      if n == 0
      then (none, p)
      else (let (found, ups) = scan n n p.cursor 0 p.upstreams in
          (found, record { upstreams = ups; cursor = add_u64 p.cursor 1 }))
