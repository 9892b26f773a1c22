-- ===== src/Pool/Fit.antt =====
-- The key that `select` gives out passed its tests, and is there afterwards.
use helius.Common.{
  ℕ, zero, suc, Bool, true, false, none, some, Option, List, ◌≡◌, sym, subst, ◌∙◌, arith, ◌%◌,
  get_elem?, get_elem?-lt, get_elem?-set_self, Bool-cases, inl, inr, add_u64, if◌then◌else◌, length,
  ◌==◌, nat_eq,
}
use mathlib.Core.Option.{some-injective}
use helius.Upstream.{Upstream, try_acquire, has_quota_for, in_cooldown}
use helius.Pool.Select.{Pool, Request, try_key, scan, select, skips}
use helius.Pool.Frame.{Round, passed, asked, try_key-Round}

-- A key at an index that the tests before the bucket's let through.
abbrev pub IsFit : {Limiter : Type 0} → Request Limiter → ℕ → List (Upstream Limiter) → Type 0
IsFit {Limiter} q idx ups =
    (up : Upstream Limiter) × (get_elem? ups idx ≡ some up) × (skips q.est_cost q.now_ms up ≡ false)

module _ {Limiter : Type 0} (q : Request Limiter) where
  -- A bucket has no say in those tests.
  skips-try_acquire :
      (instant : ℕ) (up : Upstream Limiter)
      → skips q.est_cost q.now_ms (try_acquire q.governor instant q.class up).1
        ≡ skips q.est_cost q.now_ms up
  unfolding skips try_acquire has_quota_for in_cooldown
  skips-try_acquire instant up = ground arith

  Round-IsFit :
      {off idx : ℕ} {ups : List (Upstream Limiter)}
      → Round q off idx ups
      → (try_key q off idx ups).0 ≡ true
      → IsFit q idx (try_key q off idx ups).1
  Round-IsFit (passed e _) taken = absurd (cc)
  Round-IsFit {off} {idx} {ups} (asked up _ found fit e) taken =
      let up' = (try_acquire q.governor (q.clock off) q.class up).1 in
      subst (λ (r : Bool × List (Upstream Limiter)). IsFit q idx r.1) (sym e)
        (
          up',
          get_elem?-set_self ups idx up' (get_elem?-lt ups idx up found),
          skips-try_acquire (q.clock off) up ∙ fit,
        )

  scan-IsFit :
      (left n base off : ℕ) (ups : List (Upstream Limiter)) (idx : ℕ)
      → (scan q left n base off ups).0 ≡ some idx
      → IsFit q idx (scan q left n base off ups).1
  unfolding scan
  scan-IsFit zero n base off ups idx h = absurd (ground arith)
  scan-IsFit (suc left) n base off ups idx h =
      let at = add_u64 base off % n in
      let (taken, ups') = try_key q off at ups in
      let later = scan-IsFit left n base (suc off) ups' idx in
      let chosen : Bool → Option ℕ × List (Upstream Limiter) =
        λ b. if b then (some at, ups') else scan q left n base (suc off) ups' in
      elim (Bool-cases taken) [
        | inl took ↦
            let here =
              some-injective at idx (subst (λ (b : Bool). (chosen b).0 ≡ some idx) took h) in
            subst (λ (b : Bool). IsFit q idx (chosen b).1) (sym took)
              (subst (λ i. IsFit q i ups') here (Round-IsFit (try_key-Round q off at ups) took))
        | inr passed_on ↦
            subst (λ (b : Bool). IsFit q idx (chosen b).1) (sym passed_on)
              (later (subst (λ (b : Bool). (chosen b).0 ≡ some idx) passed_on h))
      ]

  -- The key that was selected is in the pool, and passes the tests there.
  pub select-IsFit :
      (p : Pool Limiter) (idx : ℕ)
      → (select q p).0 ≡ some idx
      → IsFit q idx (select q p).1.upstreams
  unfolding select
  select-IsFit p idx h =
      let n = length p.upstreams in
      let r = scan q n n p.cursor 0 p.upstreams in
      let chosen : Bool → Option ℕ × Pool Limiter = λ b.
        if b then (none, p) else (r.0, record { upstreams = r.1; cursor = add_u64 p.cursor 1 }) in
      elim (Bool-cases (n == 0)) [
        | inl empty ↦
            (let e = subst (λ (b : Bool). (chosen b).0 ≡ some idx) empty h in absurd (ground arith))
        | inr more ↦
            subst (λ (b : Bool). IsFit q idx (chosen b).1.upstreams) (sym more)
              (scan-IsFit n n p.cursor 0 p.upstreams idx
                (subst (λ (b : Bool). (chosen b).0 ≡ some idx) more h))
      ]
