-- ===== src/Serving/Paid.antt =====
-- What a charge of one key does to the sums over the keys, modulo 2^64, and what selection does not.
use helius.Common.{
  ℕ, zero, suc, some, List, [], ◌∷◌, ◌≡◌, ◌+◌, ◌%◌, refl, ap, sym, ◌∙◌, arith, get_elem?, length,
  modify, u64_mod, nat_eq,
}
use mathlib.Core.Option.{some-injective}
use helius.Upstream.{Upstream}
use helius.Pool.{Pool, Request, select, scan}
use helius.Pool.Frame.{stripped, scan-strip}
use helius.Stats.Ledger.{used, lifetime}

module _ {Limiter : Type 0} where
  -- A key was charged a cost, modulo 2^64.
  pub record HasPaid (cost : ℕ) (up up' : Upstream Limiter) : Type 0 where
    pub month : up'.credits_used % u64_mod ≡ (up.credits_used + cost) % u64_mod
    pub ever : up'.credits_total % u64_mod ≡ (up.credits_total + cost) % u64_mod

  -- The sums over keys of which one was charged.
  pub record HavePaid (cost : ℕ) (ups ups' : List (Upstream Limiter)) : Type 0 where
    pub month : used ups' % u64_mod ≡ (used ups + cost) % u64_mod
    pub ever : lifetime ups' % u64_mod ≡ (lifetime ups + cost) % u64_mod

  pub modify-HavePaid :
      (cost idx : ℕ) (ups : List (Upstream Limiter)) (old new : Upstream Limiter)
      → get_elem? ups idx ≡ some old
      → HasPaid cost old new
      → HavePaid cost ups (modify idx (λ _. new) ups)
  modify-HavePaid cost zero [] old new e h = absurd (ground arith)
  modify-HavePaid cost (suc idx) [] old new e h = absurd (ground arith)
  modify-HavePaid cost zero (x ∷ ups) old new e h =
      let a = ap (λ u. u.credits_used) (some-injective x old e) in
      let b = ap (λ u. u.credits_total) (some-injective x old e) in
      record { month = omega (arith, a, h.month); ever = omega (arith, b, h.ever) }
  modify-HavePaid cost (suc idx) (x ∷ ups) old new e h =
      let rest = modify-HavePaid cost idx ups old new e h in
      record { month = omega (arith, rest.month); ever = omega (arith, rest.ever) }

  stripped-sums :
      (ups : List (Upstream Limiter))
      → (used (stripped ups) ≡ used ups) × (lifetime (stripped ups) ≡ lifetime ups)
  stripped-sums [] = (refl, refl)
  stripped-sums (u ∷ ups) = omega (arith, stripped-sums ups)

  pub select-HavePaid :
      (q : Request Limiter) (p : Pool Limiter) → HavePaid 0 p.upstreams (select q p).1.upstreams
  unfolding select
  select-HavePaid q p =
      let n = length p.upstreams in
      let after = (scan q n n p.cursor 0 p.upstreams).1 in
      let kept = scan-strip q n n p.cursor 0 p.upstreams in
      let month : used after ≡ used p.upstreams =
        sym (stripped-sums after).0 ∙ ap used kept ∙ (stripped-sums p.upstreams).0 in
      let ever : lifetime after ≡ lifetime p.upstreams =
        sym (stripped-sums after).1 ∙ ap lifetime kept ∙ (stripped-sums p.upstreams).1 in
      record { month = ground (arith, month); ever = ground (arith, ever) }
