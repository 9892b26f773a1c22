-- ===== src/Serving/Passes.antt =====
-- One pass through the loop of src/proxy.rs, cut at its wait, for a request with nothing between its steps.
use helius.Common.{
  ℕ, zero, suc, Option, none, some, List, [], ◌∷◌, ◌++◌, ◌≡◌, refl, ap, subst, ◌∙◌, arith, ◌≤◌,
  get_elem?, modify,
}
use helius.Metrics.{Event}
use helius.Upstream.{Upstream}
use helius.Pool.{Pool, select}
use helius.Stats.{Stats}
use helius.Error.{Result}
use helius.Proxy.{
  Libraries, AppState, Incoming, Turn, Buffered, Next, returned, retried, update_key, asking,
  forward_once, outgoing, settle, with_key, with_selected, carry_on, attempt,
}
use helius.Serving.Task.{
  Job, Task, ready, waiting, ended, take_off, land, give_up, depart, after_select, go, receive,
  resume,
}
use helius.Serving.System.{System, turn_of, reply_to, turn_task, reply_task, put_back, step}

module _ {Limiter Url : Type 0} (lib : Libraries Limiter Url) (base : Url) (req : Incoming)
    (turns : ℕ → Turn Url) where
  -- The moves of the task at position 0 for one request and nothing else, from the pass with a number on: each
  -- pass takes the next of the turns, and a reply is what this turn sends back for the request as it goes
  -- out with some key.
  pub data Follows (i : ℕ) (s : System Limiter Url) : ℕ → System Limiter Url → Type 0 where
    here : Follows i s i s
    turned :
        {j : ℕ} {t : System Limiter Url}
        → Follows i s j t
        → Follows i s (suc j) (step lib (turn_of 0 (turns j)) t)
    replied :
        {j : ℕ} {t : System Limiter Url}
        → Follows i s (suc j) t
        → (up : Upstream Limiter)
        → Follows i s (suc j) (step lib (reply_to 0 ((turns j).send (outgoing lib base req up))) t)

  -- They lead there before a pass has begun that has a number of at least `last`.
  abbrev pub Ends : (i last : ℕ) → (s t : System Limiter Url) → Type 0
  Ends i last s t = (j : ℕ) × (j ≤ last) × Follows i s j t

module _ {Limiter Url : Type 0} {lib : Libraries Limiter Url} {base : Url} {req : Incoming}
    {turns : ℕ → Turn Url} where
  pub Follows-trans :
      {i j : ℕ} {s t : System Limiter Url} {k : ℕ} {u : System Limiter Url}
      → Follows lib base req turns i s j t
      → Follows lib base req turns j t k u
      → Follows lib base req turns i s k u
  Follows-trans r here = r
  Follows-trans r (turned q) = turned (Follows-trans r q)
  Follows-trans r (replied q up) = replied (Follows-trans r q) up

module _ {A : Type 0} where
  modify_twice :
      (xs : List A) (i : ℕ) (a b : A)
      → modify i (λ _. b) (modify i (λ _. a) xs) ≡ modify i (λ _. b) xs
  modify_twice [] zero a b = refl
  modify_twice [] (suc i) a b = refl
  modify_twice (x ∷ xs) zero a b = refl
  modify_twice (x ∷ xs) (suc i) a b = ap (λ t. x ∷ t) (modify_twice xs i a b)

  get_elem?-modify_self :
      (xs : List A) (i : ℕ) (a v : A)
      → get_elem? xs i ≡ some a
      → get_elem? (modify i (λ _. v) xs) i ≡ some v
  get_elem?-modify_self [] i a v h = absurd (ground arith)
  get_elem?-modify_self (x ∷ xs) zero a v h = refl
  get_elem?-modify_self (x ∷ xs) (suc i) a v h = get_elem?-modify_self xs i a v h

-- Where a pass through the loop leaves a request.
abbrev task_of : Job → (left : ℕ) → (skip : List ℕ) → Next → Task
task_of job left skip (returned result) = ended result
task_of job left skip (retried idx) = ready job left (skip ++ idx ∷ [])

module _ {Limiter Url : Type 0} where
  -- The system of one request alone.
  abbrev pub alone : AppState Limiter Url → Task → System Limiter Url
  alone app task = record { app = app; tasks = task ∷ [] }

  abbrev pub finished :
      AppState Limiter Url
      → Result Buffered × Pool Limiter × Stats × List Event
      → System Limiter Url
  finished app (result, pool, stats, _) =
      alone (record app { pool = pool; stats = stats }) (ended result)

module _ {Limiter Url : Type 0} (lib : Libraries Limiter Url) where
  receive-settle :
      (base : Url) (job : Job) (left : ℕ) (skip : List ℕ) (turn : Turn Url) (idx : ℕ)
      (up : Upstream Limiter) (stats : Stats)
      → let (task, up', stats') =
          receive lib job left skip idx turn.now_ms
            (turn.send (outgoing lib base job.req up))
            (take_off up)
            stats in
        let (after, up'', stats'', _) =
          settle lib base job.req job.est job.parsed turn idx up stats in
        (task ≡ task_of job left skip after) × (up' ≡ up'') × (stats' ≡ stats'')
  unfolding receive settle forward_once land take_off
  receive-settle base job left skip turn idx up stats = ground arith

  -- The second half of a pass, from its wait on.
  wait-Follows :
      (job : Job) (left : ℕ) (skip : List ℕ) (turns : ℕ → Turn Url) (i : ℕ) (idx : ℕ)
      (app : AppState Limiter Url) (up : Upstream Limiter)
      → get_elem? app.pool.upstreams idx ≡ some up
      → let flying = record app { pool = update_key idx (λ _. take_off up) app.pool } in
        let (after, up', stats, _) =
          settle lib app.upstream_base job.req job.est job.parsed (turns i) idx up app.stats in
        Follows lib app.upstream_base job.req turns
          (suc i)
          (alone flying (waiting job left skip idx (turns i).now_ms))
          (suc i)
          (alone
            (record app { pool = update_key idx (λ _. up') app.pool; stats = stats })
            (task_of job left skip after))
  unfolding step put_back reply_task resume update_key
  wait-Follows job left skip turns i idx app up found =
      let flying = record app { pool = update_key idx (λ _. take_off up) app.pool } in
      let reply = (turns i).send (outgoing lib app.upstream_base job.req up) in
      let (after, up', stats, _) =
        settle lib app.upstream_base job.req job.est job.parsed (turns i) idx up app.stats in
      let (task, up'', stats'') =
        receive lib job left skip idx (turns i).now_ms reply (take_off up) app.stats in
      let (e, e', e'') =
        receive-settle app.upstream_base job left skip (turns i) idx up app.stats in
      let there : get_elem? flying.pool.upstreams idx ≡ some (take_off up) =
        get_elem?-modify_self app.pool.upstreams idx up (take_off up) found in
      let landed : step lib (reply_to 0 reply)
            (alone flying (waiting job left skip idx (turns i).now_ms))
          ≡ alone (record app { pool = update_key idx (λ _. up') app.pool; stats = stats })
              (task_of job left skip after) =
        ap
          (λ o.
            let (k, a) = resume lib job left skip idx (turns i).now_ms reply flying o in alone a k)
          there
        ∙ (λ i.
            alone
              (record app {
                pool = record app.pool {
                  upstreams =
                      (modify_twice app.pool.upstreams idx (take_off up) up''
                          ∙ ap (λ v. modify idx (λ _. v) app.pool.upstreams) e')
                        i;
                };
                stats = e'' i;
              })
              (e i)) in
      subst
        (Follows lib app.upstream_base job.req turns (suc i)
          (alone flying (waiting job left skip idx (turns i).now_ms)) (suc i))
        landed (replied here up)

  -- A pass and those after it, where the ones after it run to the end.
  pub carry_on-Ends :
      (job : Job) (left : ℕ) (skip : List ℕ) (turns : ℕ → Turn Url) (i last : ℕ)
      (app : AppState Limiter Url) (r : Next × Pool Limiter × Stats × List Event)
      (rest : ℕ → Pool Limiter → Stats → Result Buffered × Pool Limiter × Stats × List Event)
      → i ≤ last
      → ((idx : ℕ) (p : Pool Limiter) (t : Stats)
          → Ends lib app.upstream_base job.req turns i last
              (alone (record app { pool = p; stats = t }) (ready job left (skip ++ idx ∷ [])))
              (finished app (rest idx p t)))
      → Ends lib app.upstream_base job.req turns i last
          (alone (record app { pool = r.1; stats = r.2 }) (task_of job left skip r.0))
          (finished app (carry_on r rest))
  unfolding carry_on
  carry_on-Ends job left skip turns i last app (returned result, p, t, _) rest within later =
      (i, within, here)
  carry_on-Ends job left skip turns i last app (retried idx, p, t, _) rest within later =
      later idx p t

  key-Follows :
      (job : Job) (left : ℕ) (skip : List ℕ) (turns : ℕ → Turn Url) (i : ℕ) (idx : ℕ)
      (app : AppState Limiter Url) (found : Option (Upstream Limiter))
      → get_elem? app.pool.upstreams idx ≡ found
      → let (task, flying) = depart job left skip idx (turns i).now_ms app found in
        let (after, pool, stats, _) =
          with_key lib app.upstream_base job.req job.est job.parsed
            (turns i)
            idx
            app.pool
            app.stats
            found in
        Follows lib app.upstream_base job.req turns
          (suc i)
          (alone flying task)
          (suc i)
          (alone (record app { pool = pool; stats = stats }) (task_of job left skip after))
  unfolding depart with_key
  key-Follows job left skip turns i idx app none e = here
  key-Follows job left skip turns i idx app (some up) e =
      wait-Follows job left skip turns i idx app up e

  selected-Follows :
      (job : Job) (left : ℕ) (skip : List ℕ) (turns : ℕ → Turn Url) (i : ℕ) (selected : Option ℕ)
      (app : AppState Limiter Url)
      → let (task, flying) = after_select job left skip (turns i).now_ms selected app in
        let (after, pool, stats, _) =
          with_selected lib app.upstream_base job.req job.est job.parsed
            (turns i)
            selected
            app.pool
            app.stats in
        Follows lib app.upstream_base job.req turns
          (suc i)
          (alone flying task)
          (suc i)
          (alone (record app { pool = pool; stats = stats }) (task_of job left skip after))
  unfolding after_select with_selected give_up
  selected-Follows job left skip turns i none app = here
  selected-Follows job left skip turns i (some idx) app =
      key-Follows job left skip turns i idx app (get_elem? app.pool.upstreams idx) refl

  -- One pass, from the head of the loop.
  pub attempt-Follows :
      (job : Job) (left : ℕ) (skip : List ℕ) (turns : ℕ → Turn Url) (i : ℕ)
      (app : AppState Limiter Url)
      → let (after, pool, stats, _) =
          attempt lib app.upstream_base job.req job.est job.parsed
            (turns i)
            skip
            app.pool
            app.stats in
        Follows lib app.upstream_base job.req turns i
          (alone app (ready job (suc left) skip))
          (suc i)
          (alone (record app { pool = pool; stats = stats }) (task_of job left skip after))
  unfolding attempt step put_back turn_task go
  attempt-Follows job left skip turns i app =
      let q = asking lib app.upstream_base job.req job.est job.parsed (turns i) skip in
      let (selected, pool) = select q app.pool in
      Follows-trans (turned here)
        (selected-Follows job left skip turns i selected (record app { pool = pool }))
