-- ===== src/Proxy/Charging.antt =====
-- What a request costs the keys, and that it leaves no key in flight.
use helius.Common.{
  ℕ, zero, suc, Option, none, some, List, [], ◌∷◌, ◌++◌, map, ◌≡◌, refl, ap, sym, subst, ◌∙◌, arith,
  ◌<◌, length, get_elem?, get_elem?-lt, modify, get_elem?-map, map-modify, modify_id, All,
  All-get_elem?, u32_mod, add_u64, inl, inr, Bool-cases, ltb,
}
use helius.Metrics.{Event}
use helius.Credits.{Parsed, parse_body, request_cost}
use helius.Upstream.{
  Upstream, add_credits, record_ok, note_success, record_rate_limited, trip_cooldown, record_error,
}
use helius.Pool.{Pool, Request, select}
use helius.Pool.Frame.{stripped}
use helius.Pool.Choice.{select-stripped}
use helius.Stats.{Stats}
use helius.Error.{Result, ok, err}
use helius.Proxy.Wire.{Buffered, check_gateway_auth}
use helius.Proxy.Arms.{
  Libraries, AppState, Incoming, Turn, Next, returned, retried, on_rate_limited, on_served,
  on_failed, commit_credits, update_key, carry_on, exhausted,
}
use helius.Proxy.Handler.{
  forward_once, settle, attempt, attempts, proxy, with_key, with_selected, asking, authorized,
}

-- What a key is charged in this month and in its lifetime, and the requests that it has in flight.
pub record Account : Type 0 where
  pub used : ℕ
  pub total : ℕ
  pub in_flight : ℕ

abbrev pub charged : ℕ → Account → Account
charged est a = record a { used = add_u64 a.used est; total = add_u64 a.total est }

-- A result after which exactly one key was charged once, where a response is relayed, and none otherwise.
abbrev pub IsCharged : ℕ → Result Buffered → (before after : List Account) → Type 0
IsCharged est (ok buf) before after =
    (idx : ℕ) × (idx < length before) × (after ≡ modify idx (charged est) before)
IsCharged est (err e) before after = after ≡ before

abbrev IsMoved : ℕ → Next → (before after : List Account) → Type 0
IsMoved est (returned result) before after = IsCharged est result before after
IsMoved est (retried idx) before after = after ≡ before

abbrev IsSettled : ℕ → Next → (before after : Account) → Type 0
IsSettled est (returned (ok buf)) before after = after ≡ charged est before
IsSettled est (returned (err e)) before after = after ≡ before
IsSettled est (retried idx) before after = after ≡ before

-- The requests in flight are counted in a u32.
abbrev pub HaveRoom : List Account → Type 0
HaveRoom = All (λ a. a.in_flight < u32_mod)

module _ {Limiter : Type 0} where
  abbrev pub account : Upstream Limiter → Account
  account up = record { used = up.credits_used; total = up.credits_total; in_flight = up.in_flight }

  abbrev pub accounts : List (Upstream Limiter) → List Account
  accounts = map account

  accounts-stripped : (ups : List (Upstream Limiter)) → accounts (stripped ups) ≡ accounts ups
  accounts-stripped [] = refl
  accounts-stripped (u ∷ ups) = ap (λ t. account u ∷ t) (accounts-stripped ups)

  accounts-select :
      (q : Request Limiter) (p : Pool Limiter)
      → accounts (select q p).1.upstreams ≡ accounts p.upstreams
  accounts-select q p =
      sym (accounts-stripped (select q p).1.upstreams)
      ∙ ap accounts (select-stripped q p).0
      ∙ accounts-stripped p.upstreams

module _ {Limiter Url : Type 0} (lib : Libraries Limiter Url) (base : Url) (req : Incoming) where
  settle-IsSettled :
      (est : ℕ) (parsed : Parsed) (turn : Turn Url) (idx : ℕ) (up : Upstream Limiter) (s : Stats)
      → up.in_flight < u32_mod
      → let (next, up', _, _) = settle lib base req est parsed turn idx up s in
        IsSettled est next (account up) (account up')
  unfolding settle forward_once on_rate_limited on_served on_failed commit_credits add_credits
      record_ok note_success record_rate_limited trip_cooldown record_error
  settle-IsSettled est parsed turn idx up s room = ground arith

  -- What the change of the key at an index does to the list of all.
  IsSettled-IsMoved :
      (est : ℕ) (next : Next) (ups : List (Upstream Limiter)) (idx : ℕ) (up new : Upstream Limiter)
      → get_elem? ups idx ≡ some up
      → IsSettled est next (account up) (account new)
      → IsMoved est next (accounts ups) (accounts (modify idx (λ _. new) ups))
  IsSettled-IsMoved est (returned (ok buf)) ups idx up new found e = (
    idx,
    get_elem?-lt (accounts ups) idx (account up) (get_elem?-map account ups idx up found),
    map-modify account (charged est) ups idx up new found e,
  )
  IsSettled-IsMoved est (returned (err _)) ups idx up new found e =
      map-modify account (λ a. a) ups idx up new found e ∙ modify_id (accounts ups) idx
  IsSettled-IsMoved est (retried _) ups idx up new found e =
      map-modify account (λ a. a) ups idx up new found e ∙ modify_id (accounts ups) idx

  with_key-IsMoved :
      (est : ℕ) (parsed : Parsed) (turn : Turn Url) (idx : ℕ) (pool : Pool Limiter) (s : Stats)
      (found : Option (Upstream Limiter))
      → get_elem? pool.upstreams idx ≡ found
      → HaveRoom (accounts pool.upstreams)
      → let (next, pool', _, _) = with_key lib base req est parsed turn idx pool s found in
        IsMoved est next (accounts pool.upstreams) (accounts pool'.upstreams)
  unfolding with_key update_key
  with_key-IsMoved est parsed turn idx pool s none e room = refl
  with_key-IsMoved est parsed turn idx pool s (some up) e room =
      let (next, new, _, _) = settle lib base req est parsed turn idx up s in
      let room' =
        All-get_elem? (λ a. a.in_flight < u32_mod) (accounts pool.upstreams) idx (account up) room
          (get_elem?-map account pool.upstreams idx up e) in
      IsSettled-IsMoved est next pool.upstreams idx up new e
        (settle-IsSettled est parsed turn idx up s room')

  with_selected-IsMoved :
      (est : ℕ) (parsed : Parsed) (turn : Turn Url) (selected : Option ℕ) (pool : Pool Limiter)
      (s : Stats)
      → HaveRoom (accounts pool.upstreams)
      → let (next, pool', _, _) = with_selected lib base req est parsed turn selected pool s in
        IsMoved est next (accounts pool.upstreams) (accounts pool'.upstreams)
  unfolding with_selected exhausted
  with_selected-IsMoved est parsed turn none pool s room = refl
  with_selected-IsMoved est parsed turn (some idx) pool s room =
      with_key-IsMoved est parsed turn idx pool s (get_elem? pool.upstreams idx) refl room

  attempt-IsMoved :
      (est : ℕ) (parsed : Parsed) (turn : Turn Url) (skip : List ℕ) (pool : Pool Limiter)
      (s : Stats)
      → HaveRoom (accounts pool.upstreams)
      → let (next, pool', _, _) = attempt lib base req est parsed turn skip pool s in
        IsMoved est next (accounts pool.upstreams) (accounts pool'.upstreams)
  unfolding attempt
  attempt-IsMoved est parsed turn skip pool s room =
      let chosen = select (asking lib base req est parsed turn skip) pool in
      let same = accounts-select (asking lib base req est parsed turn skip) pool in
      let r = with_selected lib base req est parsed turn chosen.0 chosen.1 s in
      subst (λ before. IsMoved est r.0 before (accounts r.1.upstreams)) same
        (with_selected-IsMoved est parsed turn chosen.0 chosen.1 s (subst HaveRoom (sym same) room))

  -- Passes that go on from where one left the keys.
  carry_on-IsCharged :
      (est : ℕ) (before : List Account) (r : Next × Pool Limiter × Stats × List Event)
      (rest : ℕ → Pool Limiter → Stats → Result Buffered × Pool Limiter × Stats × List Event)
      → IsMoved est r.0 before (accounts r.1.upstreams)
      → ((idx : ℕ) (p : Pool Limiter) (s : Stats)
          → accounts p.upstreams ≡ before
          → IsCharged est (rest idx p s).0 before (accounts (rest idx p s).1.upstreams))
      → IsCharged est (carry_on r rest).0 before (accounts (carry_on r rest).1.upstreams)
  unfolding carry_on
  carry_on-IsCharged est before (returned result, p, s, _) rest moved later = moved
  carry_on-IsCharged est before (retried idx, p, s, _) rest moved later = later idx p s moved

  attempts-IsCharged :
      (est : ℕ) (parsed : Parsed) (turns : ℕ → Turn Url) (left i : ℕ) (skip : List ℕ)
      (pool : Pool Limiter) (s : Stats)
      → HaveRoom (accounts pool.upstreams)
      → let (result, pool', _, _) = attempts lib base req est parsed turns left i skip pool s in
        IsCharged est result (accounts pool.upstreams) (accounts pool'.upstreams)
  unfolding attempts exhausted
  attempts-IsCharged est parsed turns zero i skip pool s room = refl
  attempts-IsCharged est parsed turns (suc left) i skip pool s room =
      carry_on-IsCharged est (accounts pool.upstreams)
        (attempt lib base req est parsed (turns i) skip pool s)
        (λ idx. attempts lib base req est parsed turns left (suc i) (skip ++ idx ∷ []))
        (attempt-IsMoved est parsed (turns i) skip pool s room)
        (λ idx p t e.
          let r = attempts lib base req est parsed turns left (suc i) (skip ++ idx ∷ []) p t in
          subst (λ before. IsCharged est r.0 before (accounts r.1.upstreams)) e
            (attempts-IsCharged est parsed turns left (suc i) (skip ++ idx ∷ []) p t
              (subst HaveRoom (sym e) room)))

authorized-IsCharged :
    {Limiter Url : Type 0} (lib : Libraries Limiter Url) (turns : ℕ → Turn Url) (req : Incoming)
    (state : AppState Limiter Url) (auth : Result Unit)
    → HaveRoom (accounts state.pool.upstreams)
    → let (result, state', _) = authorized lib turns req state auth in
      IsCharged
        (request_cost (parse_body lib.serde req.uri.path req.body) state.costs)
        result
        (accounts state.pool.upstreams)
        (accounts state'.pool.upstreams)
unfolding authorized
authorized-IsCharged lib turns req state (err e) room = refl
authorized-IsCharged lib turns req state (ok _) room =
    let parsed = parse_body lib.serde req.uri.path req.body in
    let served =
      attempts-IsCharged lib state.upstream_base req (request_cost parsed state.costs) parsed turns
        state.config.gateway.max_retries 0 [] state.pool state.stats room in
    elim (Bool-cases (ltb state.config.gateway.max_body_bytes (length req.body))) [
      | inl large ↦ rw (large, IsCharged) refl
      | inr small ↦ rw (small, IsCharged) served
    ]

-- A request that is answered with an upstream's response adds its estimate once to the monthly and the
-- lifetime counter of one key, and a request that ends with an error charges no key, whatever the
-- upstreams reply; in both cases each key has as many requests in flight as before, where that is a u32
-- value.
pub proxy-IsCharged :
    {Limiter Url : Type 0} (lib : Libraries Limiter Url) (turns : ℕ → Turn Url) (req : Incoming)
    (state : AppState Limiter Url)
    → HaveRoom (accounts state.pool.upstreams)
    → let (result, state', _) = proxy lib turns req state in
      IsCharged
        (request_cost (parse_body lib.serde req.uri.path req.body) state.costs)
        result
        (accounts state.pool.upstreams)
        (accounts state'.pool.upstreams)
unfolding proxy
proxy-IsCharged lib turns req state room =
    authorized-IsCharged lib turns req state
      (check_gateway_auth lib.http state.config.gateway.api_key req.uri req.headers) room
