-- ===== src/Pool/Frame.antt =====
-- Selection changes nothing of a key but its token buckets.
use helius.Common.{
  ℕ, zero, suc, Bool, true, false, some, List, [], ◌∷◌, map, ◌≡◌, refl, ap, ◌∙◌, arith, ◌%◌,
  get_elem?, set, Bool-cases, Option-cases, inl, inr, add_u64, contains, nat_eq,
}
use helius.Upstream.{Upstream, try_acquire}
use helius.Pool.Select.{Request, try_key, scan, skips}

module _ {Limiter : Type 0} where
  -- A key without its buckets.
  abbrev pub strip : Upstream Limiter → Upstream Limiter
  strip up = record up { limiters = [] }

  abbrev pub stripped : List (Upstream Limiter) → List (Upstream Limiter)
  stripped = map strip

  pub stripped-set :
      (ups : List (Upstream Limiter)) (i : ℕ) (old new : Upstream Limiter)
      → get_elem? ups i ≡ some old
      → strip new ≡ strip old
      → stripped (set ups i new) ≡ stripped ups
  stripped-set [] i old new h e = refl
  stripped-set (u ∷ ups) zero old new h e =
      let same : u ≡ old = cc in ap (λ v. v ∷ stripped ups) (rw same e)
  stripped-set (u ∷ ups) (suc i) old new h e =
      ap (λ t. strip u ∷ t) (stripped-set ups i old new h e)

module _ {Limiter : Type 0} (q : Request Limiter) where
  try_acquire-strip :
      (off : ℕ) (up : Upstream Limiter)
      → strip (try_acquire q.governor (q.clock off) q.class up).1 ≡ strip up
  unfolding try_acquire
  try_acquire-strip off up = ground arith

  -- A round either takes no key and changes nothing, since the index is left out or its key is unfit, or
  -- asks the token bucket of a fit key.
  pub data Round (off idx : ℕ) (ups : List (Upstream Limiter)) : Type 0 where
    passed :
        try_key q off idx ups ≡ (false, ups)
        → (contains q.skip idx ≡ false
            → (up : Upstream Limiter) → get_elem? ups idx ≡ some up
            → skips q.est_cost q.now_ms up ≡ true)
        → Round off idx ups
    asked :
        (up : Upstream Limiter)
        → contains q.skip idx ≡ false
        → get_elem? ups idx ≡ some up
        → skips q.est_cost q.now_ms up ≡ false
        → try_key q off idx ups ≡ (
            let (granted, up') = try_acquire q.governor (q.clock off) q.class up in
            (granted, set ups idx up'))
        → Round off idx ups

  pub try_key-Round : (off idx : ℕ) (ups : List (Upstream Limiter)) → Round off idx ups
  unfolding try_key
  try_key-Round off idx ups = elim (Bool-cases (contains q.skip idx)) [
    | inl out ↦ passed (rw out) (λ kept. cc)
    | inr kept ↦ elim (Option-cases (get_elem? ups idx)) [
      | inl missing ↦ passed (rw (kept, missing)) (λ _ up e. cc)
      | inr (up, found) ↦ elim (Bool-cases (skips q.est_cost q.now_ms up)) [
        | inl unfit ↦
            passed (rw (kept, found, unfit)) (λ _ v e. let same : v ≡ up = cc in rw same unfit)
        | inr fit ↦ asked up kept found fit (rw (kept, found, fit))
      ]
    ]
  ]

  Round-strip :
      {off idx : ℕ} {ups : List (Upstream Limiter)}
      → Round off idx ups
      → stripped (try_key q off idx ups).1 ≡ stripped ups
  Round-strip (passed e _) = ap (λ (r : Bool × List (Upstream Limiter)). stripped r.1) e
  Round-strip {off} {idx} {ups} (asked up _ found _ e) =
      ap (λ (r : Bool × List (Upstream Limiter)). stripped r.1) e
      ∙ stripped-set ups idx up _ found (try_acquire-strip off up)

  pub try_key-strip :
      (off idx : ℕ) (ups : List (Upstream Limiter))
      → stripped (try_key q off idx ups).1 ≡ stripped ups
  try_key-strip off idx ups = Round-strip (try_key-Round off idx ups)

  pub scan-strip :
      (left n base off : ℕ) (ups : List (Upstream Limiter))
      → stripped (scan q left n base off ups).1 ≡ stripped ups
  unfolding scan
  scan-strip zero n base off ups = refl
  scan-strip (suc left) n base off ups =
      let idx = add_u64 base off % n in
      let ups' = (try_key q off idx ups).1 in
      ground (arith, try_key-strip off idx ups, scan-strip left n base (suc off) ups')
