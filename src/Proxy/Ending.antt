-- ===== src/Proxy/Ending.antt =====
-- How a request ends, and what it leaves in the statistics.
use helius.Common.{
  ℕ, String, zero, suc, ◌+◌, ◌≤◌, ◌<◌, Option, none, some, List, [], ◌∷◌, ◌++◌, ◌≡◌, refl, sym,
  subst, arith, ◌⊎◌, length, get_elem?, inl, inr, Bool-cases, ltb, add_u64,
}
use helius.Credits.{Parsed, parse_body, request_cost, methods}
use helius.Metrics.{Event}
use helius.Upstream.{Upstream}
use helius.Pool.{Pool, select, soonest_cooldown_secs}
use helius.Stats.{Stats, bump_all, record_methods, record_exhausted}
use helius.Error.{
  Result, ok, err, unauthorized, payload_too_large, all_upstreams_exhausted, bad_gateway,
}
use helius.Proxy.Wire.{Buffered, Http, Uri, Header, check_gateway_auth}
use helius.Proxy.Arms.{
  Libraries, AppState, Incoming, Turn, Next, returned, retried, on_served, commit_credits, carry_on,
  exhausted,
}
use helius.Proxy.Handler.{
  settle, attempt, attempts, proxy, with_key, with_selected, asking, authorized,
}

module _ {Limiter Url : Type 0} (turns : ℕ → Turn Url) (last : ℕ) where
  -- The statistics before and after a request that got past the guards: a relayed response tallies its
  -- methods; the only error is that all keys are exhausted, which is counted once, and its hint is that of
  -- the pool it leaves, at the time of one of its passes.
  abbrev pub IsTallied : Parsed → Result Buffered → Pool Limiter → (before after : Stats) → Type 0
  IsTallied parsed (ok buf) pool before after =
      after ≡ record before { methods = bump_all (methods parsed) before.methods }
  IsTallied parsed (err (all_upstreams_exhausted secs)) pool before after =
      (after ≡ record before { all_exhausted = add_u64 before.all_exhausted 1 })
      × ((i : ℕ) × (i ≤ last) × (secs ≡ soonest_cooldown_secs (turns i).now_ms pool))
  IsTallied parsed (err unauthorized) pool before after = ⊥
  IsTallied parsed (err payload_too_large) pool before after = ⊥
  IsTallied parsed (err (bad_gateway e)) pool before after = ⊥

  abbrev IsStepped : Parsed → Next → Pool Limiter → (before after : Stats) → Type 0
  IsStepped parsed (returned result) pool before after = IsTallied parsed result pool before after
  IsStepped parsed (retried idx) pool before after = after ≡ before

-- A try of a key that returns relays a response.
abbrev IsServed : Parsed → Next → (before after : Stats) → Type 0
IsServed parsed (returned (ok buf)) before after =
    after ≡ record before { methods = bump_all (methods parsed) before.methods }
IsServed parsed (returned (err e)) before after = ⊥
IsServed parsed (retried idx) before after = after ≡ before

IsServed-IsStepped :
    {Limiter Url : Type 0} (turns : ℕ → Turn Url) (last : ℕ) (parsed : Parsed) (next : Next)
    (pool : Pool Limiter) (before after : Stats)
    → IsServed parsed next before after
    → IsStepped turns last parsed next pool before after
IsServed-IsStepped turns last parsed (returned (ok buf)) pool before after h = h
IsServed-IsStepped turns last parsed (returned (err e)) pool before after h = absurd h
IsServed-IsStepped turns last parsed (retried idx) pool before after h = h

module _ {Limiter Url : Type 0} (lib : Libraries Limiter Url) (base : Url) (req : Incoming) where
  settle-IsServed :
      (est : ℕ) (parsed : Parsed) (turn : Turn Url) (idx : ℕ) (up : Upstream Limiter) (s : Stats)
      → let (next, _, s', _) = settle lib base req est parsed turn idx up s in
        IsServed parsed next s s'
  unfolding settle on_served commit_credits record_methods
  settle-IsServed est parsed turn idx up s = ground arith

module _ {Limiter Url : Type 0} (lib : Libraries Limiter Url) (base : Url) (req : Incoming)
    (turns : ℕ → Turn Url) (last : ℕ) where
  with_key-IsStepped :
      (est : ℕ) (parsed : Parsed) (i idx : ℕ) (pool : Pool Limiter) (s : Stats)
      (found : Option (Upstream Limiter))
      → let (next, pool', s', _) = with_key lib base req est parsed (turns i) idx pool s found in
        IsStepped turns last parsed next pool' s s'
  unfolding with_key
  with_key-IsStepped est parsed i idx pool s none = refl
  with_key-IsStepped est parsed i idx pool s (some up) =
      IsServed-IsStepped turns last parsed _ _ s _
        (settle-IsServed lib base req est parsed (turns i) idx up s)

  attempt-IsStepped :
      (est : ℕ) (parsed : Parsed) (i : ℕ) (selected : Option ℕ) (pool : Pool Limiter) (s : Stats)
      → i ≤ last
      → let (next, pool', s', _) =
          with_selected lib base req est parsed (turns i) selected pool s in
        IsStepped turns last parsed next pool' s s'
  unfolding with_selected exhausted record_exhausted
  attempt-IsStepped est parsed i none pool s within = (refl, (i, within, refl))
  attempt-IsStepped est parsed i (some idx) pool s within =
      with_key-IsStepped est parsed i idx pool s (get_elem? pool.upstreams idx)

  carry_on-IsTallied :
      (parsed : Parsed) (before : Stats) (r : Next × Pool Limiter × Stats × List Event)
      (rest : ℕ → Pool Limiter → Stats → Result Buffered × Pool Limiter × Stats × List Event)
      → IsStepped turns last parsed r.0 r.1 before r.2
      → ((idx : ℕ) (p : Pool Limiter)
          → IsTallied turns last parsed
              (rest idx p before).0
              (rest idx p before).1
              before
              (rest idx p before).2)
      → IsTallied turns last parsed
          (carry_on r rest).0
          (carry_on r rest).1
          before
          (carry_on r rest).2
  unfolding carry_on
  carry_on-IsTallied parsed before (returned result, p, s, _) rest stepped later = stepped
  carry_on-IsTallied parsed before (retried idx, p, s, _) rest stepped later =
      subst
        (λ t. IsTallied turns last parsed (rest idx p t).0 (rest idx p t).1 before (rest idx p t).2)
        (sym stepped) (later idx p)

  attempts-IsTallied :
      (est : ℕ) (parsed : Parsed) (left i : ℕ) (skip : List ℕ) (pool : Pool Limiter) (s : Stats)
      → i + left ≡ last
      → let (result, pool', s', _) = attempts lib base req est parsed turns left i skip pool s in
        IsTallied turns last parsed result pool' s s'
  unfolding attempts attempt exhausted record_exhausted
  attempts-IsTallied est parsed zero i skip pool s passes = (refl, (i, omega arith, refl))
  attempts-IsTallied est parsed (suc left) i skip pool s passes =
      let (selected, pool') = select (asking lib base req est parsed (turns i) skip) pool in
      carry_on-IsTallied parsed s (attempt lib base req est parsed (turns i) skip pool s)
        (λ idx. attempts lib base req est parsed turns left (suc i) (skip ++ idx ∷ []))
        (attempt-IsStepped est parsed i selected pool' s (omega arith))
        (λ idx p. attempts-IsTallied est parsed left (suc i) (skip ++ idx ∷ []) p s (omega arith))

check_gateway_auth-cases :
    {Url : Type 0} (http : Http Url) (expected : String) (uri : Uri) (headers : List Header)
    → (check_gateway_auth http expected uri headers ≡ ok tt)
      ⊎ (check_gateway_auth http expected uri headers ≡ err unauthorized)
unfolding check_gateway_auth
check_gateway_auth-cases http expected uri headers = ground arith

module _ {Limiter Url : Type 0} (lib : Libraries Limiter Url) (req : Incoming)
    (state : AppState Limiter Url) where
  -- The answer of the guard on the gateway's key.
  abbrev pub auth : Result Unit
  auth = check_gateway_auth lib.http state.config.gateway.api_key req.uri req.headers

  abbrev pub parsed_body : Parsed
  parsed_body = parse_body lib.serde req.uri.path req.body

  abbrev pub IsAccepted : Type 0
  IsAccepted = (auth ≡ ok tt) × (length req.body ≤ state.config.gateway.max_body_bytes)

  -- The tally of the passes.
  abbrev pub IsCounted :
      (ℕ → Turn Url) → Result Buffered → Pool Limiter → (before after : Stats) → Type 0
  IsCounted turns = IsTallied turns state.config.gateway.max_retries parsed_body

  -- How a request may end: the guards end it with the state as it was and nothing recorded, and past
  -- them it is tallied.
  abbrev pub IsEnded : (ℕ → Turn Url) → Result Buffered → AppState Limiter Url → List Event → Type 0
  IsEnded turns (ok buf) state' events =
      IsAccepted × IsCounted turns (ok buf) state'.pool state.stats state'.stats
  IsEnded turns (err (all_upstreams_exhausted secs)) state' events =
      IsAccepted
      × IsCounted turns (err (all_upstreams_exhausted secs)) state'.pool state.stats state'.stats
  IsEnded turns (err unauthorized) state' events =
      (auth ≡ err unauthorized) × (state' ≡ state) × (events ≡ [])
  IsEnded turns (err payload_too_large) state' events =
      (auth ≡ ok tt)
      × (state.config.gateway.max_body_bytes < length req.body)
      × (state' ≡ state)
      × (events ≡ [])
  IsEnded turns (err (bad_gateway e)) state' events = ⊥

  IsTallied-IsEnded :
      (turns : ℕ → Turn Url) (result : Result Buffered) (state' : AppState Limiter Url)
      (events : List Event)
      → IsAccepted
      → IsCounted turns result state'.pool state.stats state'.stats
      → IsEnded turns result state' events
  IsTallied-IsEnded turns (ok buf) state' events a h = (a, h)
  IsTallied-IsEnded turns (err (all_upstreams_exhausted secs)) state' events a h = (a, h)
  IsTallied-IsEnded turns (err unauthorized) state' events a h = absurd h
  IsTallied-IsEnded turns (err payload_too_large) state' events a h = absurd h
  IsTallied-IsEnded turns (err (bad_gateway e)) state' events a h = absurd h

  authorized-IsEnded :
      (turns : ℕ → Turn Url)
      → auth ≡ ok tt
      → let (result, state', events) = authorized lib turns req state (ok tt) in
        IsEnded turns result state' events
  unfolding authorized
  authorized-IsEnded turns e =
      let max = state.config.gateway.max_body_bytes in
      let r =
        attempts lib state.upstream_base req (request_cost parsed_body state.costs) parsed_body
          turns state.config.gateway.max_retries 0 [] state.pool state.stats in
      elim (Bool-cases (ltb max (length req.body))) [
        | inl large ↦ rw (large, IsEnded) (e, ground arith, refl, refl)
        | inr small ↦
            rw (small, IsEnded)
              (IsTallied-IsEnded turns r.0 (record state { pool = r.1; stats = r.2 }) r.3
                (e, ground arith)
                (attempts-IsTallied lib state.upstream_base req turns
                  state.config.gateway.max_retries (request_cost parsed_body state.costs)
                  parsed_body state.config.gateway.max_retries 0 [] state.pool state.stats
                  (omega arith)))
      ]

  -- Every request ends in one of four ways, whatever the upstreams reply: without the gateway's key it is
  -- unauthorized, with a body above the limit it is too large, and both leave the whole state as it was
  -- and record no metric; any other request relays a response, which tallies its methods and nothing else
  -- of the statistics, or is told that all keys are exhausted, which is counted once and carries the
  -- hint of the pool that it leaves, at the time of one of its passes.
  pub proxy-IsEnded :
      (turns : ℕ → Turn Url)
      → let (result, state', events) = proxy lib turns req state in
        IsEnded turns result state' events
  unfolding proxy authorized
  proxy-IsEnded turns =
      elim (check_gateway_auth-cases lib.http state.config.gateway.api_key req.uri req.headers) [
        | inl e ↦
            subst
              (λ a.
                IsEnded turns (authorized lib turns req state a).0
                  (authorized lib turns req state a).1 (authorized lib turns req state a).2)
              (sym e) (authorized-IsEnded turns e)
        | inr e ↦
            subst
              (λ a.
                IsEnded turns (authorized lib turns req state a).0
                  (authorized lib turns req state a).1 (authorized lib turns req state a).2)
              (sym e) (e, refl, refl)
      ]
