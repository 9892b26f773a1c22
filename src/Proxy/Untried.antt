-- ===== src/Proxy/Untried.antt =====
-- The keys that a request selects were not left out.
use helius.Common.{
  ℕ, zero, suc, Bool, true, false, some, List, ◌≡◌, subst, arith, length, contains, nat_eq, inl,
  inr, add_u64, ◌%◌, if◌then◌else◌, Bool-cases,
}
use mathlib.Core.Option.{some-injective}
use helius.Upstream.{Upstream}
use helius.Pool.{Pool, Request, try_key, scan, select}

module _ {Limiter : Type 0} (q : Request Limiter) where
  try_key-untried :
      (off idx : ℕ) (ups : List (Upstream Limiter))
      → (try_key q off idx ups).0 ≡ true
      → contains q.skip idx ≡ false
  unfolding try_key
  try_key-untried off idx ups h = ground arith

  scan-untried :
      (left n base off : ℕ) (ups : List (Upstream Limiter)) (idx : ℕ)
      → (scan q left n base off ups).0 ≡ some idx
      → contains q.skip idx ≡ false
  unfolding scan
  scan-untried zero n base off ups idx h = absurd (ground arith)
  scan-untried (suc left) n base off ups idx h =
      let (taken, ups') = try_key q off (add_u64 base off % n) ups in
      let later = scan-untried left n base (suc off) ups' idx in
      elim (Bool-cases taken) [
        | inl took ↦
            let here : add_u64 base off % n ≡ idx = some-injective _ _ (
              subst
                (λ (b : Bool).
                  (if b
                    then (some (add_u64 base off % n), ups')
                    else scan q left n base (suc off) ups').0
                  ≡ some idx)
                took h) in
            subst (λ j. contains q.skip j ≡ false) here
              (try_key-untried off (add_u64 base off % n) ups took)
        | inr passed_on ↦ later (
            subst
              (λ (b : Bool).
                (if b
                  then (some (add_u64 base off % n), ups')
                  else scan q left n base (suc off) ups').0
                ≡ some idx)
              passed_on h)
      ]

  pub select-untried :
      (p : Pool Limiter) (idx : ℕ) → (select q p).0 ≡ some idx → contains q.skip idx ≡ false
  unfolding select
  select-untried p idx h =
      ground (
        arith,
        h,
        scan-untried (length p.upstreams) (length p.upstreams) p.cursor 0 p.upstreams idx,
      )
