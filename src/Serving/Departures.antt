-- ===== src/Serving/Departures.antt =====
-- A task that takes a step without a flight takes none, or one to a key with quota.
use helius.Common.{
  ℕ, zero, suc, Bool, true, false, Option, none, some, List, ◌≡◌, refl, ap, sym, subst, ◌∙◌, arith,
  ◌+◌, ◌≤◌, ◌<◌, ◌⊎◌, ◌||◌, not, if◌then◌else◌, get_elem?, get_elem?-map, map-modify, modify_id,
  set, modify, u64_mod, All, All-get_elem?, inl, inr, Bool-cases, nat_eq,
}
use helius.Upstream.{Upstream, has_quota_for, in_cooldown}
use helius.Pool.{select}
use helius.Pool.Choice.{skips-false}
use helius.Pool.Fit.{select-IsFit}
use helius.Proxy.{Libraries, AppState, Turn, update_key, asking}
use helius.Serving.Task.{
  Job, Task, pinging, resting, take_off, give_up, depart, after_select, go, start_ping,
}
use helius.Serving.System.{System}
use helius.Serving.Ledger.{
  departs, Purse, Flight, Ledger, Post, stay, join, begin, end, reset, pay, unspent,
}
use helius.Serving.Ledger
use helius.Serving.Purses.{flight_of, purse, app_purses, purses-select, caps_at, ledger}
use helius.Serving.Posts.{idle-Post, begin-Post}

module _ {Limiter Url : Type 0} where
  -- What a step of a task without a flight does to the ledger: it takes none, or one to a key with quota.
  abbrev Departs : AppState Limiter Url → Task × AppState Limiter Url → Type 0
  Departs app (task, app') =
      ((flight_of task ≡ none) × (app_purses app' ≡ app_purses app))
      ⊎ ((f : Flight) × (c : Purse) × (flight_of task ≡ some f)
          × (get_elem? (app_purses app) f.idx ≡ some c)
          × (c.used + f.est ≤ c.cap)
          × (app_purses app' ≡ modify f.idx (Ledger.depart f.is_request) (app_purses app)))

  pub Departs-Post :
      (s : System Limiter Url) (n : ℕ) (old : Task) (r : Task × AppState Limiter Url)
      → get_elem? s.tasks n ≡ some old
      → flight_of old ≡ none
      → Departs s.app r
      → Post (ledger s) (ledger (record s { app = r.1; tasks = set s.tasks n r.0 })) (departs n)
  Departs-Post s n old r at before (inl (after, same)) =
      idle-Post s n old r.0 r.1 at before after same
  Departs-Post s n old r at before (inr (f, c, after, found, quota, same)) =
      begin-Post s n old r.0 f c r.1 at before after found quota same

  -- Departures look at the purses only.
  Departs-cong :
      (app mid : AppState Limiter Url) (r : Task × AppState Limiter Url)
      → app_purses mid ≡ app_purses app
      → Departs mid r
      → Departs app r
  Departs-cong app mid r e (inl (after, same)) = inl (after, same ∙ e)
  Departs-cong app mid r e (inr (f, c, after, found, quota, same)) = inr (
    f,
    c,
    after,
    subst (λ ps. get_elem? ps f.idx ≡ some c) e found,
    quota,
    same ∙ ap (modify f.idx (Ledger.depart f.is_request)) e,
  )

  give_up-Departs : (now_ms : ℕ) (app : AppState Limiter Url) → Departs app (give_up now_ms app)
  unfolding give_up
  give_up-Departs now_ms app = inl (refl, refl)

  depart-Departs :
      (job : Job) (left : ℕ) (skip : List ℕ) (idx now_ms : ℕ) (app : AppState Limiter Url)
      (up : Upstream Limiter)
      → get_elem? app.pool.upstreams idx ≡ some up
      → up.credits_used + job.est ≤ up.credit_cap
      → Departs app (depart job left skip idx now_ms app (some up))
  unfolding depart update_key take_off
  depart-Departs job left skip idx now_ms app up found quota = inr (
    record { idx = idx; est = job.est; is_request = true },
    purse up,
    refl,
    get_elem?-map purse app.pool.upstreams idx up found,
    quota,
    map-modify purse (Ledger.depart true) app.pool.upstreams idx up (take_off up) found refl,
  )

  after_select-Departs :
      (job : Job) (left : ℕ) (skip : List ℕ) (now_ms : ℕ) (selected : Option ℕ)
      (app : AppState Limiter Url)
      → ((idx : ℕ)
          → selected ≡ some idx
          → (up : Upstream Limiter) × (get_elem? app.pool.upstreams idx ≡ some up)
            × (up.credits_used + job.est ≤ up.credit_cap))
      → Departs app (after_select job left skip now_ms selected app)
  unfolding after_select
  after_select-Departs job left skip now_ms none app fits = give_up-Departs now_ms app
  after_select-Departs job left skip now_ms (some idx) app fits =
      let (up, found, quota) = fits idx refl in
      subst (λ o. Departs app (depart job left skip idx now_ms app o)) (sym found)
        (depart-Departs job left skip idx now_ms app up found quota)

  ping-Departs :
      (cost idx now_ms : ℕ) (app : AppState Limiter Url) (up : Upstream Limiter)
      → get_elem? app.pool.upstreams idx ≡ some up
      → up.credits_used + cost ≤ up.credit_cap
      → Departs app (pinging idx now_ms cost, app)
  ping-Departs cost idx now_ms app up found quota = inr (
    record { idx = idx; est = cost; is_request = false },
    purse up,
    refl,
    get_elem?-map purse app.pool.upstreams idx up found,
    quota,
    sym (modify_id (app_purses app) idx),
  )

  pub start_ping-Departs :
      (cost idx now_ms : ℕ) (app : AppState Limiter Url) (found : Option (Upstream Limiter))
      → All (λ up. up.credit_cap + 1 < u64_mod) app.pool.upstreams
      → get_elem? app.pool.upstreams idx ≡ found
      → Departs app (start_ping cost idx now_ms found, app)
  unfolding start_ping has_quota_for
  start_ping-Departs cost idx now_ms app none capped at = inl (refl, refl)
  start_ping-Departs cost idx now_ms app (some up) capped at =
      let room =
        All-get_elem? (λ (u : Upstream Limiter). u.credit_cap + 1 < u64_mod) app.pool.upstreams idx
          up capped at in
      let left_out = not up.enabled || in_cooldown now_ms up || not (has_quota_for cost up) in
      elim (Bool-cases left_out) [
        | inl out ↦
            subst (λ (b : Bool). Departs app (if b then resting else pinging idx now_ms cost, app))
              (sym out) (inl (refl, refl))
        | inr pinged ↦
            subst (λ (b : Bool). Departs app (if b then resting else pinging idx now_ms cost, app))
              (sym pinged) (ping-Departs cost idx now_ms app up at (ground arith))
      ]

module _ {Limiter Url : Type 0} (lib : Libraries Limiter Url) where
  pub go-Departs :
      (turn : Turn Url) (job : Job) (left : ℕ) (skip : List ℕ) (app : AppState Limiter Url)
      → All (λ up. up.credit_cap + 1 < u64_mod) app.pool.upstreams
      → Departs app (go lib turn job left skip app)
  unfolding go asking
  go-Departs turn job zero skip app capped = give_up-Departs turn.now_ms app
  go-Departs turn job (suc left) skip app capped =
      let q = asking lib app.upstream_base job.req job.est job.parsed turn skip in
      let (selected, pool) = select q app.pool in
      let mid = record app { pool = pool } in
      Departs-cong app mid (after_select job left skip turn.now_ms selected mid)
        (purses-select q app.pool)
        (after_select-Departs job left skip turn.now_ms selected mid (λ idx e.
          let (up, found, fit) = select-IsFit q app.pool idx e in
          let at =
            subst (λ ps. get_elem? ps idx ≡ some (purse up)) (purses-select q app.pool)
              (get_elem?-map purse pool.upstreams idx up found) in
          (
            up,
            found,
            ((skips-false q up (caps_at app.pool.upstreams idx (purse up) capped at)).0 fit).1,
          )))
