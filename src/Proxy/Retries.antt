-- ===== src/Proxy/Retries.antt =====
-- How often a request tries a key.
use helius.Common.{
  ℕ, zero, suc, false, Option, none, some, List, [], ◌∷◌, ◌++◌, ◌≡◌, refl, subst, arith, length,
  get_elem?, contains, nat_eq, inl, inr, Bool-cases, ltb,
}
use mathlib.Core.Option.{some-injective}
use helius.Credits.{Parsed, parse_body, request_cost}
use helius.Metrics.{Event}
use helius.Upstream.{
  Upstream, add_credits, record_ok, note_success, record_rate_limited, trip_cooldown, record_error,
}
use helius.Pool.{Pool, select}
use helius.Stats.{Stats}
use helius.Error.{Result, ok, err}
use helius.Proxy.Wire.{Buffered, check_gateway_auth}
use helius.Proxy.Arms.{
  Libraries, AppState, Incoming, Turn, Next, returned, retried, on_rate_limited, on_served,
  on_failed, commit_credits, update_key, carry_on, exhausted,
}
use helius.Proxy.Handler.{
  forward_once, settle, with_key, with_selected, asking, attempt, attempts, authorized, proxy,
}
use helius.Proxy.Untried.{select-untried}
use helius.Proxy.Outcomes.{
  Outcomes, IsOneMore, IsAtMostOneMore, IsTouched, IsOnce, IsOnce-same, IsPassed, touched-IsOnce,
  IsTouched-IsOnce, outcomes, counted, counted-select, modify-IsTouched,
}

module _ {Limiter Url : Type 0} (lib : Libraries Limiter Url) (base : Url) (req : Incoming) where
  -- A pass that goes on has an index to add.
  abbrev IsRetryOf : Option ℕ → Next → Type 0
  IsRetryOf selected (returned result) = Unit
  IsRetryOf selected (retried idx) = selected ≡ some idx

  settle-IsRetryOf :
      (est : ℕ) (parsed : Parsed) (turn : Turn Url) (idx : ℕ) (up : Upstream Limiter) (s : Stats)
      → IsRetryOf (some idx) (settle lib base req est parsed turn idx up s).0
  unfolding settle
  settle-IsRetryOf est parsed turn idx up s = ground arith

module _ {Limiter Url : Type 0} (lib : Libraries Limiter Url) (base : Url) (req : Incoming) where
  settle-IsOneMore :
      (est : ℕ) (parsed : Parsed) (turn : Turn Url) (idx : ℕ) (up : Upstream Limiter) (s : Stats)
      → IsOneMore (outcomes up) (outcomes (settle lib base req est parsed turn idx up s).1)
  unfolding settle forward_once on_rate_limited on_served on_failed commit_credits add_credits
      record_ok note_success record_rate_limited trip_cooldown record_error
  settle-IsOneMore est parsed turn idx up s = ground arith

  tried-IsPassed :
      (next : Next) (skip : List ℕ) (idx j : ℕ) (a b : Option Outcomes)
      → IsRetryOf lib base req (some idx) next
      → contains skip idx ≡ false
      → IsTouched idx j a b
      → IsPassed next skip j a b
  tried-IsPassed (returned result) skip idx j a b is untried touched =
      touched-IsOnce skip idx j a b untried touched
  tried-IsPassed (retried k) skip idx j a b is untried touched =
      let same = some-injective idx k is in
      (
        subst (λ i. contains skip i ≡ false) same untried,
        subst (λ i. IsTouched i j a b) same touched,
      )

  with_key-IsPassed :
      (est : ℕ) (parsed : Parsed) (turn : Turn Url) (skip : List ℕ) (idx j : ℕ)
      (pool : Pool Limiter) (s : Stats) (found : Option (Upstream Limiter))
      → contains skip idx ≡ false
      → get_elem? pool.upstreams idx ≡ found
      → let (next, pool', _, _) = with_key lib base req est parsed turn idx pool s found in
        IsPassed next skip j (counted pool j) (counted pool' j)
  unfolding with_key update_key
  with_key-IsPassed est parsed turn skip idx j pool s none untried at =
      (untried, (λ _. refl, inl refl))
  with_key-IsPassed est parsed turn skip idx j pool s (some up) untried at =
      let (next, new, _, _) = settle lib base req est parsed turn idx up s in
      tried-IsPassed next skip idx j _ _ (settle-IsRetryOf lib base req est parsed turn idx up s)
        untried
        (modify-IsTouched pool.upstreams idx j up new at
          (settle-IsOneMore est parsed turn idx up s))

  with_selected-IsPassed :
      (est : ℕ) (parsed : Parsed) (turn : Turn Url) (skip : List ℕ) (j : ℕ) (selected : Option ℕ)
      (pool : Pool Limiter) (s : Stats)
      → ((idx : ℕ) → selected ≡ some idx → contains skip idx ≡ false)
      → let (next, pool', _, _) = with_selected lib base req est parsed turn selected pool s in
        IsPassed next skip j (counted pool j) (counted pool' j)
  unfolding with_selected exhausted
  with_selected-IsPassed est parsed turn skip j none pool s untried =
      IsOnce-same skip j (counted pool j) (counted pool j) refl
  with_selected-IsPassed est parsed turn skip j (some idx) pool s untried =
      with_key-IsPassed est parsed turn skip idx j pool s (get_elem? pool.upstreams idx)
        (untried idx refl) refl

  attempt-IsPassed :
      (est : ℕ) (parsed : Parsed) (turn : Turn Url) (skip : List ℕ) (j : ℕ) (pool : Pool Limiter)
      (s : Stats)
      → let (next, pool', _, _) = attempt lib base req est parsed turn skip pool s in
        IsPassed next skip j (counted pool j) (counted pool' j)
  unfolding attempt asking
  attempt-IsPassed est parsed turn skip j pool s =
      let q = asking lib base req est parsed turn skip in
      let (selected, pool') = select q pool in
      let r = with_selected lib base req est parsed turn selected pool' s in
      subst (λ a. IsPassed r.0 skip j a (counted r.1 j)) (counted-select q pool j)
        (with_selected-IsPassed est parsed turn skip j selected pool' s (select-untried q pool))

  carry_on-IsOnce :
      (skip : List ℕ) (j : ℕ) (a : Option Outcomes) (r : Next × Pool Limiter × Stats × List Event)
      (rest : ℕ → Pool Limiter → Stats → Result Buffered × Pool Limiter × Stats × List Event)
      → IsPassed r.0 skip j a (counted r.1 j)
      → ((idx : ℕ) (p : Pool Limiter) (s : Stats)
          → IsOnce (skip ++ idx ∷ []) j (counted p j) (counted (rest idx p s).1 j))
      → IsOnce skip j a (counted (carry_on r rest).1 j)
  unfolding carry_on
  carry_on-IsOnce skip j a (returned result, p, s, _) rest passed later = passed
  carry_on-IsOnce skip j a (retried idx, p, s, _) rest (untried, touched) later =
      IsTouched-IsOnce skip idx j a (counted p j) (counted (rest idx p s).1 j) untried touched
        (later idx p s)

  attempts-IsOnce :
      (est : ℕ) (parsed : Parsed) (turns : ℕ → Turn Url) (left i : ℕ) (skip : List ℕ) (j : ℕ)
      (pool : Pool Limiter) (s : Stats)
      → IsOnce skip j
          (counted pool j)
          (counted (attempts lib base req est parsed turns left i skip pool s).1 j)
  unfolding attempts exhausted
  attempts-IsOnce est parsed turns zero i skip j pool s =
      IsOnce-same skip j (counted pool j) (counted pool j) refl
  attempts-IsOnce est parsed turns (suc left) i skip j pool s =
      carry_on-IsOnce skip j (counted pool j)
        (attempt lib base req est parsed (turns i) skip pool s)
        (λ idx. attempts lib base req est parsed turns left (suc i) (skip ++ idx ∷ []))
        (attempt-IsPassed est parsed (turns i) skip j pool s)
        (λ idx p t. attempts-IsOnce est parsed turns left (suc i) (skip ++ idx ∷ []) j p t)

module _ {Limiter Url : Type 0} (lib : Libraries Limiter Url) (req : Incoming)
    (state : AppState Limiter Url) (j : ℕ) where
  authorized-IsAtMostOneMore :
      (turns : ℕ → Turn Url) (auth : Result Unit)
      → IsAtMostOneMore
          (counted state.pool j)
          (counted (authorized lib turns req state auth).1.pool j)
  unfolding authorized
  authorized-IsAtMostOneMore turns (err e) = inl refl
  authorized-IsAtMostOneMore turns (ok _) =
      let parsed = parse_body lib.serde req.uri.path req.body in
      let est = request_cost parsed state.costs in
      let loop =
        attempts-IsOnce lib state.upstream_base req est parsed turns
          state.config.gateway.max_retries 0 [] j state.pool state.stats in
      elim (Bool-cases (ltb state.config.gateway.max_body_bytes (length req.body))) [
        | inl large ↦ rw large (inl refl)
        | inr small ↦ rw small loop.1
      ]

  -- Over a whole request with all its retries, a key is tried at most once, whatever the upstreams reply: of
  -- its three counters of outcomes, served, rate-limited and failed, either none moves or one of them moves
  -- by one.
  pub proxy-IsAtMostOneMore :
      (turns : ℕ → Turn Url)
      → IsAtMostOneMore (counted state.pool j) (counted (proxy lib turns req state).1.pool j)
  unfolding proxy
  proxy-IsAtMostOneMore turns =
      authorized-IsAtMostOneMore turns
        (check_gateway_auth lib.http state.config.gateway.api_key req.uri req.headers)
