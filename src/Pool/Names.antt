-- ===== src/Pool/Names.antt =====
-- The names of the keys of a pool, and what leaves them alone.
use helius.Common.{
  ℕ, String, false, some, List, [], ◌∷◌, map, ◌≡◌, refl, ap, sym, ◌∙◌, arith, get_elem?, length,
  modify, map-modify, modify_id, All, ◌==◌, string_eq,
}
use helius.Config.{UpstreamConfig, RpsConfig}
use helius.Ratelimit.{Governor}
use helius.Upstream.{Upstream, from_config as upstream_from_config}
use helius.Pool.Select.{Pool, Request, from_config, scan, select}
use helius.Pool.Frame.{stripped, scan-strip}

-- No two texts are the same.
abbrev pub AreDistinct : List String → Type 0
AreDistinct [] = Unit
AreDistinct (n ∷ ns) = All (λ m. (n == m) ≡ false) ns × AreDistinct ns

module _ {Limiter : Type 0} where
  abbrev pub names : List (Upstream Limiter) → List String
  names ups = map (λ u. u.name) ups

  pub names-modify :
      (ups : List (Upstream Limiter)) (idx : ℕ) (old new : Upstream Limiter)
      → get_elem? ups idx ≡ some old
      → new.name ≡ old.name
      → names (modify idx (λ _. new) ups) ≡ names ups
  names-modify ups idx old new e same =
      map-modify (λ (u : Upstream Limiter). u.name) (λ n. n) ups idx old new e same
      ∙ modify_id (names ups) idx

  pub names-map :
      (f : Upstream Limiter → Upstream Limiter) (ups : List (Upstream Limiter))
      → ((u : Upstream Limiter) → (f u).name ≡ u.name)
      → names (map f ups) ≡ names ups
  names-map f [] h = refl
  names-map f (u ∷ ups) h = rw (h u, names-map f ups h)

  names-stripped : (ups : List (Upstream Limiter)) → names (stripped ups) ≡ names ups
  names-stripped [] = refl
  names-stripped (u ∷ ups) = ap (λ t. u.name ∷ t) (names-stripped ups)

  pub select-names :
      (q : Request Limiter) (p : Pool Limiter) → names (select q p).1.upstreams ≡ names p.upstreams
  unfolding select
  select-names q p =
      let n = length p.upstreams in
      let kept = scan-strip q n n p.cursor 0 p.upstreams in
      let same =
        sym (names-stripped (scan q n n p.cursor 0 p.upstreams).1)
        ∙ ap names kept
        ∙ names-stripped p.upstreams in
      ground (arith, same)

  pub from_config-names :
      (g : Governor Limiter) (cfgs : List UpstreamConfig) (rps : RpsConfig)
      → names (from_config g cfgs rps).upstreams ≡ map (λ c. c.name) cfgs
  unfolding from_config upstream_from_config
  from_config-names g [] rps = refl
  from_config-names g (c ∷ cfgs) rps = ap (λ t. c.name ∷ t) (from_config-names g cfgs rps)
