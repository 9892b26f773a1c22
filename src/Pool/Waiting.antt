-- ===== src/Pool/Waiting.antt =====
-- The `Retry-After` hint: the seconds until the first cooling key is available again.
use helius.Common.{
  ℕ, none, some, List, [], ◌∷◌, ◌≡◌, ◌↔◌, refl, arith, ◌+◌, ◌-◌, ◌*◌, ◌≤◌, ◌<◌, max, ltb, All, Any,
  Bool-cases, inl, inr, min_by_key_lem, div_ceil, All-mono, Any-mono, ltb→lt, ap, min_by_key,
}
use helius.Upstream.{Upstream, cooldown_remaining_ms}
use helius.Pool.Select.{Pool}
use helius.Pool.View.{hint, cooling, soonest_cooldown_secs}

min_by_key-none : (xs : List ℕ) → min_by_key (λ ms. ms) xs ≡ none → xs ≡ []
unfolding min_by_key
min_by_key-none [] e = refl
min_by_key-none (x ∷ xs) e = absurd (ground arith)

hint_lem :
    (xs : List ℕ) (secs : ℕ)
    → hint (min_by_key (λ ms. ms) xs) ≡ some secs
    → (c : ℕ) × (secs ≡ max (div_ceil c 1000) 1) × Any (λ y. c ≡ y) xs × All (λ y. c ≤ y) xs
unfolding min_by_key
hint_lem [] secs e = absurd (ground arith)
hint_lem (x ∷ xs) secs e =
    let (c, chosen, there, least) = min_by_key_lem (λ (ms : ℕ). ms) x xs in
    (c, ground arith, there, least)

module _ {Limiter : Type 0} (now : ℕ) where
  cooling-nil :
      (us : List (Upstream Limiter)) → (cooling now us ≡ []) ↔ All (λ u. u.cooldown_until ≤ now) us
  unfolding cooling cooldown_remaining_ms
  cooling-nil [] = (λ _. tt, λ _. refl)
  cooling-nil (u ∷ us) = ground (arith, cooling-nil us)

  first :
      (u : Upstream Limiter) (us : List (Upstream Limiter)) (P : ℕ → Type 0)
      → 0 < u.cooldown_until - now
      → Any P ((u.cooldown_until - now) ∷ cooling now us)
      → (Any P (cooling now us)
          → Any (λ v. (now < v.cooldown_until) × P (v.cooldown_until - now)) us)
      → Any (λ v. (now < v.cooldown_until) × P (v.cooldown_until - now)) (u ∷ us)
  first u us P hot (inl p) later = inl (omega arith, p)
  first u us P hot (inr h) later = inr (later h)

  cooling-Any :
      (P : ℕ → Type 0) (us : List (Upstream Limiter))
      → Any P (cooling now us)
      → Any (λ u. (now < u.cooldown_until) × P (u.cooldown_until - now)) us
  unfolding cooling cooldown_remaining_ms
  cooling-Any P [] h = h
  cooling-Any P (u ∷ us) h = elim (Bool-cases (ltb 0 (u.cooldown_until - now))) [
    | inl hot ↦ first u us P (ltb→lt 0 _ hot) (rw hot at h) (λ rest. cooling-Any P us rest)
    | inr cold ↦ inr (cooling-Any P us (rw cold at h))
  ]

  cooling-All :
      (P : ℕ → Type 0) (us : List (Upstream Limiter))
      → All P (cooling now us)
      → All (λ u. now < u.cooldown_until → P (u.cooldown_until - now)) us
  unfolding cooling cooldown_remaining_ms
  cooling-All P [] h = tt
  cooling-All P (u ∷ us) h = elim (Bool-cases (ltb 0 (u.cooldown_until - now))) [
    | inl hot ↦ let h' = rw hot at h in (λ _. h'.0, cooling-All P us h'.1)
    | inr cold ↦ (λ waits. absurd (ground arith), cooling-All P us (rw cold at h))
  ]

  -- There is a hint exactly where some key is in cooldown.
  pub soonest_cooldown_secs-none :
      (p : Pool Limiter)
      → (soonest_cooldown_secs now p ≡ none) ↔ All (λ u. u.cooldown_until ≤ now) p.upstreams
  unfolding soonest_cooldown_secs min_by_key
  soonest_cooldown_secs-none p = (
    λ e. (cooling-nil p.upstreams).0 (ground (arith, min_by_key-none (cooling now p.upstreams))),
    λ a. ap (λ ms. hint (min_by_key (λ m. m) ms)) ((cooling-nil p.upstreams).1 a),
  )

  -- The hint is at least one second; after so many seconds some key that is cooling now has come out of
  -- its cooldown, and a second earlier none has.
  pub soonest_cooldown_secs-some :
      (p : Pool Limiter) (secs : ℕ)
      → soonest_cooldown_secs now p ≡ some secs
      → (1 ≤ secs)
        × Any (λ u. (now < u.cooldown_until) × (u.cooldown_until ≤ now + 1000 * secs)) p.upstreams
        × All (λ u. now < u.cooldown_until → now + 1000 * (secs - 1) < u.cooldown_until) p.upstreams
  unfolding soonest_cooldown_secs
  soonest_cooldown_secs-some p secs e =
      let (c, at, there, least) = hint_lem (cooling now p.upstreams) secs e in
      (
        omega arith,
        Any-mono _ _ p.upstreams (λ u h. (h.0, omega (arith, h.1)))
            (cooling-Any (λ y. c ≡ y) p.upstreams there),
        All-mono _ _ p.upstreams (λ u h waits. omega (arith, h waits))
            (cooling-All (λ y. c ≤ y) p.upstreams least),
      )
