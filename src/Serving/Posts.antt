-- ===== src/Serving/Posts.antt =====
-- The posts of a ledger that one task makes: a move without a flight, the begin of one, its
-- end, and its loss.
use mathlib.Core.List.{map-append}
use helius.Common.{
  ℕ, Bool, false, none, some, [], ◌∷◌, ◌++◌, map, ◌≡◌, ap, sym, ◌∙◌, ◌+◌, ◌≤◌, get_elem?,
  get_elem?-map, modify_missing, get_elem?-map-none, map-set, set_same, set, modify, nat_eq,
}
use helius.Proxy.{AppState}
use helius.Serving.Task.{Task}
use helius.Serving.System.{System}
use helius.Serving.Ledger.{
  Cause, MayStay, joins, departs, lands, loses, lost, Purse, Flight, Ledger, Post, stay, join,
  begin, end, reset, pay, unspent,
}
use helius.Serving.Ledger
use helius.Serving.Purses.{flight_of, purse, ledger, app_purses}

module _ {Limiter Url : Type 0} where
  flights-set :
      (s : System Limiter Url) (n : ℕ) (task : Task)
      → map flight_of (set s.tasks n task) ≡ set (map flight_of s.tasks) n (flight_of task)
  flights-set s n task = map-set flight_of s.tasks n task

  -- A task that moves with no flight before or after.
  pub idle-Post :
      (s : System Limiter Url) (n : ℕ) (old task : Task) (app : AppState Limiter Url)
      → get_elem? s.tasks n ≡ some old
      → flight_of old ≡ none
      → flight_of task ≡ none
      → app_purses app ≡ app_purses s.app
      → Post (ledger s) (ledger (record s { app = app; tasks = set s.tasks n task })) (departs n)
  idle-Post s n old task app at before after same =
      let there = get_elem?-map flight_of s.tasks n old at ∙ ap some before in
      let flights =
        flights-set s n task
        ∙ ap (set (map flight_of s.tasks) n) after
        ∙ set_same (map flight_of s.tasks) n none there in
      stay tt (λ i. record { purses = same i; flights = flights i })

  pub begin-Post :
      (s : System Limiter Url) (n : ℕ) (old task : Task) (f : Flight) (c : Purse)
      (app : AppState Limiter Url)
      → get_elem? s.tasks n ≡ some old
      → flight_of old ≡ none
      → flight_of task ≡ some f
      → get_elem? (app_purses s.app) f.idx ≡ some c
      → c.used + f.est ≤ c.cap
      → app_purses app ≡ modify f.idx (Ledger.depart f.is_request) (app_purses s.app)
      → Post (ledger s) (ledger (record s { app = app; tasks = set s.tasks n task })) (departs n)
  begin-Post s n old task f c app at before after found quota same =
      let there = get_elem?-map flight_of s.tasks n old at ∙ ap some before in
      let flights = flights-set s n task ∙ ap (set (map flight_of s.tasks) n) after in
      begin n f c there found quota (λ i. record { purses = same i; flights = flights i })

  pub lost-Post :
      (s : System Limiter Url) (n : ℕ) (old task : Task) (f : Flight)
      → get_elem? s.tasks n ≡ some old
      → flight_of old ≡ some f
      → flight_of task ≡ some (record f { est = 0 })
      → Post (ledger s) (ledger (record s { tasks = set s.tasks n task })) (loses n)
  lost-Post s n old task f at before after =
      let there = get_elem?-map flight_of s.tasks n old at ∙ ap some before in
      let flights = flights-set s n task ∙ ap (set (map flight_of s.tasks) n) after in
      lost n f there (λ i. record { purses = app_purses s.app; flights = flights i })

  pub end-Post :
      (s : System Limiter Url) (n : ℕ) (old task : Task) (f : Flight) (charged : Bool)
      (app : AppState Limiter Url)
      → get_elem? s.tasks n ≡ some old
      → flight_of old ≡ some f
      → flight_of task ≡ none
      → app_purses app
        ≡ modify f.idx (λ c. pay charged f.est (Ledger.arrive f.is_request c)) (app_purses s.app)
      → Post (ledger s) (ledger (record s { app = app; tasks = set s.tasks n task })) (lands n)
  end-Post s n old task f charged app at before after same =
      let there = get_elem?-map flight_of s.tasks n old at ∙ ap some before in
      let flights = flights-set s n task ∙ ap (set (map flight_of s.tasks) n) after in
      end n f charged there (λ i. record { purses = same i; flights = flights i })

  -- A reply that reaches no key changes no purse.
  pub missing-Post :
      (s : System Limiter Url) (n : ℕ) (old task : Task) (f : Flight)
      → get_elem? s.tasks n ≡ some old
      → flight_of old ≡ some f
      → flight_of task ≡ none
      → get_elem? s.app.pool.upstreams f.idx ≡ none
      → Post (ledger s) (ledger (record s { app = s.app; tasks = set s.tasks n task })) (lands n)
  missing-Post s n old task f at before after missing =
      end-Post s n old task f false s.app at before after (
        sym (
          modify_missing (λ c. pay false f.est (Ledger.arrive f.is_request c)) (app_purses s.app)
            f.idx (get_elem?-map-none purse s.app.pool.upstreams f.idx missing)))

  pub join-Post :
      (s : System Limiter Url) (task : Task)
      → flight_of task ≡ none
      → Post (ledger s) (ledger (record s { tasks = s.tasks ++ task ∷ [] })) joins
  join-Post s task e =
      let flights =
        map-append flight_of s.tasks (task ∷ []) ∙ ap (λ o. map flight_of s.tasks ++ o ∷ []) e in
      join (λ i. record { purses = app_purses s.app; flights = flights i })

  pub same-Post :
      (s : System Limiter Url) (app : AppState Limiter Url) (cause : Cause)
      → MayStay cause
      → app_purses app ≡ app_purses s.app
      → Post (ledger s) (ledger (record s { app = app })) cause
  same-Post s app cause may e =
      stay may (λ i. record { purses = e i; flights = map flight_of s.tasks })
